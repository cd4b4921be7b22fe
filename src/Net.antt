-- ===== src/Net.antt =====
-- What proxy.go and config.go call of Go's standard library, for addresses, texts and URLs: `net/netip`
-- and `net`, `strings.TrimSpace`, `ToLower` and `EqualFold` (which are about Unicode), `strconv.Atoi` and
-- `net/url`.
use one_time_note.Base.{Bool, Option}
use one_time_note.Base.Text.{Bytes}

pub record Url : Type 0 where
  pub scheme : Bytes
  pub host : Bytes
  pub has_user : Bool
  pub raw_query : Bytes
  pub fragment : Bytes
  pub path : Bytes

pub record Net : Type 1 where
  pub Addr : Type 0
  pub Prefix : Type 0
  pub unmap : Addr → Addr
  pub is_4 : Addr → Bool
  pub address_text : Addr → Bytes
  -- `netip.PrefixFrom(addr, 64).Masked().String()`
  pub subnet_text : Addr → Bytes
  pub contains : Prefix → Addr → Bool
  pub parse_addr : Bytes → Option Addr
  pub split_host_port : Bytes → Option (Bytes × Bytes)
  -- Whether `strconv.Atoi` accepts a text.
  pub is_number : Bytes → Bool
  pub trim_space : Bytes → Bytes
  pub to_lower : Bytes → Bytes
  pub equal_fold : Bytes → Bytes → Bool
  pub parse_url : Bytes → Option Url
