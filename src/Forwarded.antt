-- ===== src/Forwarded.antt =====
-- The forwarded headers as proxy.go reads them.
use one_time_note.Base.{
  Bool, true, false, not, ◌||◌, Option, none, some, List, [], ◌∷◌, ◌==◌, length, drop,
  if◌then◌else◌,
}
use one_time_note.Base.Text.{Bytes, codes, bytes_eq, has_prefix, cut, split_on}
use one_time_note.Net.{Net}

module _ (N : Net) where
  pub record ForwardedMetadata : Type 0 where
    pub for_chain : List N.Addr
    pub host : Bytes
    pub proto : Bytes

  pub record Request : Type 0 where
    pub remote_addr : Bytes
    pub method : Bytes
    pub path : Bytes
    pub forwarded : Bytes
    pub x_forwarded_for : Bytes
    pub x_forwarded_proto : Bytes
    pub x_forwarded_host : Bytes

  unfoldable pub trim_parts : List Bytes → List Bytes
  trim_parts [] = []
  trim_parts (part ∷ parts) =
      let values = trim_parts parts in
      if length (N.trim_space part) == 0 then values else N.trim_space part ∷ values

  unfoldable pub comma_values : Bytes → List Bytes
  comma_values raw = trim_parts (split_on b',' raw)

  -- The text of the address: what stands between brackets, or before a port.
  unfoldable pub forwarded_host : Bytes → Option Bytes
  forwarded_host raw =
      if has_prefix raw (codes "[")
      then elim (cut raw b']') [
        | none ↦ none
        | some (before, suffix) ↦
            if length suffix == 0
            then some (drop 1 before)
            else if not (has_prefix suffix (codes ":"))
            then none
            else if not (N.is_number (drop 1 suffix))
            then none
            else some (drop 1 before)
      ]
      else elim (N.split_host_port raw) [
        | none ↦ some raw
        | some (host, port) ↦ if not (N.is_number port) then none else some host
      ]

  unfoldable pub parse_forwarded_addr : Bytes → Option N.Addr
  parse_forwarded_addr text =
      let raw = N.trim_space text in
      if length raw == 0 || has_prefix raw (codes "_") || N.equal_fold raw (codes "unknown")
      then none
      else elim (forwarded_host raw) [
        | none ↦ none
        | some host ↦ elim (N.parse_addr host) [ none ↦ none | some addr ↦ some (N.unmap addr) ]
      ]

  unfoldable pub parse_forwarded_addrs : List Bytes → Option (List N.Addr)
  parse_forwarded_addrs [] = some []
  parse_forwarded_addrs (value ∷ values) = elim (parse_forwarded_addr value) [
    | none ↦ none
    | some addr ↦ elim (parse_forwarded_addrs values) [
      | none ↦ none
      | some chain ↦ some (addr ∷ chain)
    ]
  ]

  unfoldable pub parse_forwarded_for_chain : Bytes → Option (List N.Addr)
  parse_forwarded_for_chain raw = elim (comma_values raw) [
    | [] ↦ none
    | value ∷ values ↦ parse_forwarded_addrs (value ∷ values)
  ]

  -- The loop over the rest of the values, which have to agree with the first.
  unfoldable pub all_agree : (Bytes → Bool) → List Bytes → Bool
  all_agree agrees [] = true
  all_agree agrees (value ∷ values) = if not (agrees value) then false else all_agree agrees values

  unfoldable pub parse_x_forwarded_headers :
      (x_for x_proto x_host : Bytes) → Option ForwardedMetadata
  parse_x_forwarded_headers x_for x_proto x_host =
      if length x_for == 0 || length x_proto == 0 || length x_host == 0
      then none
      else elim (parse_forwarded_for_chain x_for) [
        | none ↦ none
        | some for_chain ↦ elim (comma_values x_proto) [
          | [] ↦ none
          | p ∷ protos ↦ elim (comma_values x_host) [
            | [] ↦ none
            | host ∷ hosts ↦
                let proto = N.to_lower p in
                if not (all_agree (λ v. bytes_eq (N.to_lower v) proto) protos)
                then none
                else if not (all_agree (λ v. N.equal_fold v host) hosts)
                then none
                else some (record { for_chain = for_chain; host = host; proto = proto })
          ]
        ]
      ]

  unfoldable pub parse_forwarded_metadata : Request → Option ForwardedMetadata
  parse_forwarded_metadata r =
      if not (length (N.trim_space r.forwarded) == 0)
      then none
      else parse_x_forwarded_headers (N.trim_space r.x_forwarded_for)
          (N.trim_space r.x_forwarded_proto) (N.trim_space r.x_forwarded_host)
