-- ===== src/Concurrent/Once.antt =====
-- Of the calls that run at once, one stores the note and one returns it.
use one_time_note.Base.{ℕ, ◌≡◌, refl, sym, ap, ◌∙◌, subst, true, false, inl, inr, List, [], ◌∷◌}
use one_time_note.Base.Text.{Bytes, bytes_eq, bytes_eq_refl}
use one_time_note.Clock.{Time}
use one_time_note.Records.{Note}
use one_time_note.Platform.{Platform}
use one_time_note.Database.{Db}
use one_time_note.NoteService.{Limits}
use one_time_note.NoteService.Create.{Draft}
use one_time_note.History.Burned.{IsGone}
use one_time_note.Concurrent.{
  CreateArgs, Call, entered, stored, opening, opened, Turn, call, background_cleanup, CleansBy,
  AllCleanBy, System, advance, take_turn, take_turns,
}
use one_time_note.Concurrent.Keeping.{cleanup-Keeps}
use one_time_note.Concurrent.Moves.{
  is_stored, is_opened, Outlasts, IsFit, Move, still, works, stores, returns,
}
use one_time_note.Concurrent.Advancing.{advance-Move, advance-IsFit}
use one_time_note.Concurrent.Numbering.{assign-cases, assign_same}
use one_time_note.Concurrent.Life.{IsRead, IsMade, IsAlive}
use one_time_note.Concurrent.Phases.{
  kept-IsAlive, idle-IsAlive, after, stores-IsMade, stores_used, returns-IsMade,
}

module _ (P : Platform) (s : Limits) (id : Bytes) (until : Time) where
  abbrev AllFit : System P s → Type 0
  AllFit x = (i : ℕ) → IsFit P s id until (x.calls i)

  Move-IsAlive :
      (x : System P s) (i : ℕ) (c : Call) (db : Db P.Bucket)
      → Move P s id until (x.calls i) x.db c db
      → IsFit P s id until c
      → IsAlive P s id until x
      → IsAlive P s id until (after P s id until x i c db)
  Move-IsAlive x i c db (still e e') fit l =
      let same : after P s id until x i c db ≡ x =
        λ k. record { db = e' k; calls = assign_same x.calls i c e k } in
      subst (IsAlive P s id until) (sym same) l
  Move-IsAlive x i c db (works was_not_stored _ not_stored not_opened k) fit l =
      idle-IsAlive P s id until (record x { db = db }) i c was_not_stored not_stored not_opened
        (kept-IsAlive P s id until x db k l)
  Move-IsAlive x i c db (stores a d new same st) fit (inl f) =
      inr
        (stores-IsMade P s id until x i c db a d new same (subst (IsFit P s id until) new fit) st f)
  Move-IsAlive x i c db (stores a d new same st) fit (inr m) =
      absurd
        (stores_used P s id until x i c db a d new same (subst (IsFit P s id until) new fit) st m)
  Move-IsAlive x i c db (returns note new was there n gone k) fit (inl f) = absurd (n f.gone)
  Move-IsAlive x i c db (returns note new was there n gone k) fit (inr m) = elim m.read [
    | inl unread ↦ inr (returns-IsMade P s id until x i c db note new was there gone k m unread)
    | inr r ↦ absurd (n r.gone)
  ]

  take_turn-AllFit : (turn : Turn) (x : System P s) → AllFit x → AllFit (take_turn P s turn x)
  unfolding take_turn
  take_turn-AllFit (background_cleanup faults at) x fit j = fit j
  take_turn-AllFit (call i ch) x fit j =
      elim (assign-cases x.calls i (advance P s ch (x.calls i) x.db).0 j) [
        | inl (_, new) ↦
            subst (IsFit P s id until) (sym new)
              (advance-IsFit P s id until ch (x.calls i) x.db (fit i))
        | inr old ↦ subst (IsFit P s id until) (sym old) (fit j)
      ]

  take_turn-IsAlive :
      (turn : Turn) (x : System P s)
      → CleansBy until turn
      → AllFit x
      → IsAlive P s id until x
      → IsAlive P s id until (take_turn P s turn x)
  unfolding take_turn
  take_turn-IsAlive (background_cleanup faults at) x clean fit l =
      kept-IsAlive P s id until x _ (cleanup-Keeps P s id until x.db faults at clean) l
  take_turn-IsAlive (call i ch) x clean fit l =
      Move-IsAlive x i _ _ (advance-Move P s id until ch (x.calls i) x.db clean)
        (advance-IsFit P s id until ch (x.calls i) x.db (fit i)) l

  take_turns-IsAlive :
      (turns : List Turn) (x : System P s)
      → AllCleanBy until turns
      → AllFit x
      → IsAlive P s id until x
      → IsAlive P s id until (take_turns P s turns x)
  unfolding take_turns
  take_turns-IsAlive [] x clean fit l = l
  take_turns-IsAlive (turn ∷ turns) x clean fit l =
      take_turns-IsAlive turns (take_turn P s turn x) clean.1 (take_turn-AllFit turn x fit)
        (take_turn-IsAlive turn x clean.0 fit l)

  -- Before its first turn; the ticket of a call that is to store a note outlasts the run.
  abbrev pub IsWaiting : Call → Type 0
  IsWaiting (entered a) = Outlasts P s id until a
  IsWaiting (opening i token) = Unit
  IsWaiting _ = ⊥

  IsWaiting-IsFit : (c : Call) → IsWaiting c → IsFit P s id until c
  IsWaiting-IsFit (entered a) w = w
  IsWaiting-IsFit (opening i token) w = tt
  IsWaiting-IsFit _ w = elim w [ ]

  IsWaiting-not_stored : (c : Call) → IsWaiting c → is_stored id c ≡ false
  IsWaiting-not_stored (entered a) w = refl
  IsWaiting-not_stored (opening i token) w = refl
  IsWaiting-not_stored _ w = elim w [ ]

  IsWaiting-not_opened : (c : Call) → IsWaiting c → is_opened id c ≡ false
  IsWaiting-not_opened (entered a) w = refl
  IsWaiting-not_opened (opening i token) w = refl
  IsWaiting-not_opened _ w = elim w [ ]

  is_stored-eq :
      (c : Call) (a : CreateArgs) (d : Draft) → c ≡ stored a d → d.id ≡ id → is_stored id c ≡ true
  is_stored-eq c a d h same =
      ap (is_stored id) h ∙ (ap (λ k. bytes_eq k id) same ∙ bytes_eq_refl id)

  is_opened-eq : (c : Call) (n : Note) → c ≡ opened id n → is_opened id c ≡ true
  is_opened-eq c n h = ap (is_opened id) h ∙ bytes_eq_refl id

  module _ (x : System P s) (turns : List Turn) (empty : IsGone P s id x.db)
      (waiting : (i : ℕ) → IsWaiting (x.calls i)) (clean : AllCleanBy until turns) where
    abbrev final : System P s
    final = take_turns P s turns x

    final-IsAlive : IsAlive P s id until final
    final-IsAlive =
        take_turns-IsAlive turns x clean (λ i. IsWaiting-IsFit (x.calls i) (waiting i))
          (inl (record {
            gone = empty;
            not_stored = λ i. IsWaiting-not_stored (x.calls i) (waiting i);
            not_opened = λ i. IsWaiting-not_opened (x.calls i) (waiting i);
          }))

    -- Of calls that run at once, one at most stores a note under an ID: whatever turns the calls and the
    -- background cleanup take, if at first no call has begun and the ID has no metadata record, and no
    -- ticket of the ID that a call has expires before a time that no cleanup is later than.
    pub stored_once :
        (i j : ℕ) (a b : CreateArgs) (d e : Draft)
        → final.calls i ≡ stored a d
        → final.calls j ≡ stored b e
        → d.id ≡ id
        → e.id ≡ id
        → i ≡ j
    stored_once i j a b d e hi hj di ej =
        let first = is_stored-eq (final.calls i) a d hi di in
        let second = is_stored-eq (final.calls j) b e hj ej in
        elim final-IsAlive [
          | inl f ↦ cc (f.not_stored i, first)
          | inr m ↦ m.alone i first ∙ sym (m.alone j second)
        ]

    -- A note that a call has returned was stored by a call.
    returned :
        (i : ℕ) (n : Note)
        → final.calls i ≡ opened id n
        → (m : IsMade P s id until final) × IsRead P s id until m.args.payload final
    returned i n h =
        let flag = is_opened-eq (final.calls i) n h in
        elim final-IsAlive [
          | inl f ↦ cc (f.not_opened i, flag)
          | inr m ↦ elim m.read [ inl unread ↦ cc (unread i, flag) | inr r ↦ (m, r) ]
        ]

    -- Of calls that run at once, one at most returns the note of an ID, whatever burn tokens they have and
    -- whatever turns the calls and the background cleanup take, if at first no call has begun and the ID
    -- has no metadata record, and no ticket of the ID that a call has expires before a time that no
    -- cleanup is later than.
    pub opened_once :
        (i j : ℕ) (n o : Note) → final.calls i ≡ opened id n → final.calls j ≡ opened id o → i ≡ j
    opened_once i j n o hi hj =
        let (m, r) = returned i n hi in
        r.alone i (is_opened-eq (final.calls i) n hi)
        ∙ sym (r.alone j (is_opened-eq (final.calls j) o hj))

    -- A note that one of the calls returns has the payload of a call that has stored one under the ID, if
    -- at first no call has begun and the ID has no metadata record, and no ticket of the ID that a call has
    -- expires before a time that no cleanup is later than.
    pub opened_content :
        (i : ℕ) (n : Note)
        → final.calls i ≡ opened id n
        → (k : ℕ) × (a : CreateArgs) × (d : Draft) × (final.calls k ≡ stored a d)
          × (d.id ≡ id)
          × (n.payload ≡ a.payload)
    opened_content i n h =
        let (m, r) = returned i n h in (m.maker, m.args, m.draft, m.made, m.same, r.content i n h)
