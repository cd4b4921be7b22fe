-- ===== src/Concurrent/Phases.antt =====
-- How a note's life goes on with each move of a call, and with each cleanup.
use one_time_note.Base.{ℕ, ◌≡◌, refl, sym, ap, ◌∙◌, some, arith, false, inl, inr}
use one_time_note.Base.Text.{Bytes, bytes_eq_refl}
use one_time_note.Clock.{Time}
use one_time_note.Records.{Note}
use one_time_note.Platform.{Platform}
use one_time_note.Database.{Db}
use one_time_note.NoteService.{Limits}
use one_time_note.NoteService.Create.{Draft}
use one_time_note.NoteService.Create.Storing.{Stores}
use one_time_note.History.Markers.{IsUsed}
use one_time_note.History.Burned.{IsGone}
use one_time_note.Concurrent.{CreateArgs, Call, stored, opened, System, assign}
use one_time_note.Concurrent.Numbering.{
  assign-eq, assign_other, assign-cases, all-assign, alone-assign,
}
use one_time_note.Concurrent.Keeping.{Keeps}
use one_time_note.Concurrent.Moves.{is_stored, is_opened, Fits}
use one_time_note.Concurrent.Life.{
  IsFresh, IsRead, IsMade, IsAlive, is_opened-false, is_stored-false, still_made,
}

module _ (P : Platform) (s : Limits) (id : Bytes) (until : Time) where
  -- A transaction that leaves the note alone.
  module _ (x : System P s) (db : Db P.Bucket) (k : Keeps P s id until x.db db) where
    kept-IsRead :
        (payload : Bytes)
        → IsRead P s id until payload x
        → IsRead P s id until payload (record x { db = db })
    kept-IsRead payload r = record {
      reader = r.reader;
      gone = k.gone r.gone;
      alone = r.alone;
      content = r.content;
    }

    pub kept-IsAlive : IsAlive P s id until x → IsAlive P s id until (record x { db = db })
    kept-IsAlive (inl f) =
        inl (record { gone = k.gone f.gone; not_stored = f.not_stored; not_opened = f.not_opened })
    kept-IsAlive (inr m) = inr (record {
      maker = m.maker;
      args = m.args;
      draft = m.draft;
      made = m.made;
      same = m.same;
      alone = m.alone;
      marker_bytes = m.marker_bytes;
      used = k.used m.marker_bytes m.used;
      payload = λ p h. m.payload p (k.payload p h);
      read = elim m.read [ inl unread ↦ inl unread | inr r ↦ inr (kept-IsRead m.args.payload r) ];
    })

  -- A call that goes on or fails, or that is about another note.
  module _ (x : System P s) (i : ℕ) (c : Call) (was_not_stored : is_stored id (x.calls i) ≡ false)
      (not_stored : is_stored id c ≡ false) (not_opened : is_opened id c ≡ false) where
    idle-IsRead :
        (payload : Bytes)
        → IsRead P s id until payload x
        → IsRead P s id until payload (record x { calls = assign x.calls i c })
    idle-IsRead payload r = record {
      reader = r.reader;
      gone = r.gone;
      alone = alone-assign x.calls i c (is_opened id) r.reader r.alone (λ h. cc);
      content = λ j note h. elim (assign-cases x.calls i c j) [
        | inl (_, new) ↦ absurd (is_opened-false P s id until c note not_opened (sym new ∙ h))
        | inr old ↦ r.content j note (sym old ∙ h)
      ];
    }

    pub idle-IsAlive :
        IsAlive P s id until x → IsAlive P s id until (record x { calls = assign x.calls i c })
    idle-IsAlive (inl f) = inl (record {
      gone = f.gone;
      not_stored = all-assign x.calls i c (is_stored id) false f.not_stored not_stored;
      not_opened = all-assign x.calls i c (is_opened id) false f.not_opened not_opened;
    })
    idle-IsAlive (inr m) = inr (record {
      maker = m.maker;
      args = m.args;
      draft = m.draft;
      made = still_made P s id until x i c m was_not_stored;
      same = m.same;
      alone = alone-assign x.calls i c (is_stored id) m.maker m.alone (λ h. cc);
      marker_bytes = m.marker_bytes;
      used = m.used;
      payload = m.payload;
      read = elim m.read [
        | inl unread ↦ inl (all-assign x.calls i c (is_opened id) false unread not_opened)
        | inr r ↦ inr (idle-IsRead m.args.payload r)
      ];
    })

  module _ (x : System P s) (i : ℕ) (c : Call) (db : Db P.Bucket) where
    abbrev pub after : System P s
    after = record { db = db; calls = assign x.calls i c }

    -- The call stores the note.
    module _ (a : CreateArgs) (d : Draft) (new : c ≡ stored a d) (same : d.id ≡ id)
        (fits : Fits P s id until a d) (st : Stores P d x.db db) where
      stores-IsUsed : IsUsed P s id d.marker_bytes until db
      stores-IsUsed =
          let (m, read, kept) = fits.marked same in
          record {
            marker = m;
            stored = ground (
              arith,
              st.stored,
              same,
              P.get-put x.db.used_tickets d.id d.marker_bytes d.id,
              bytes_eq_refl d.id,
            );
            read = read;
            kept = kept;
          }

      stores-payload : (p : Bytes) → P.get db.payloads id ≡ some p → p ≡ a.payload
      stores-payload p h = ground (
        arith,
        st.stored,
        same,
        fits.payload,
        P.get-put x.db.payloads d.id d.payload d.id,
        bytes_eq_refl d.id,
      )

      pub stores-IsMade : IsFresh P s id until x → IsMade P s id until after
      stores-IsMade f = record {
        maker = i;
        args = a;
        draft = d;
        made = assign-eq x.calls i c ∙ new;
        same = same;
        alone =
            alone-assign x.calls i c (is_stored id) i (λ j h. cc (f.not_stored j, h)) (λ h. refl);
        marker_bytes = d.marker_bytes;
        used = stores-IsUsed;
        payload = stores-payload;
        read =
            inl (all-assign x.calls i c (is_opened id) false f.not_opened (ap (is_opened id) new));
      }

      pub stores_used : IsMade P s id until x → ⊥
      stores_used m = cc (st.unused, same, m.used.stored)

    -- The call returns the note.
    module _ (note : Note) (new : c ≡ opened id note)
        (was_not_stored : is_stored id (x.calls i) ≡ false)
        (there : P.get x.db.payloads id ≡ some note.payload) (gone : IsGone P s id db)
        (k : Keeps P s id until x.db db) (m : IsMade P s id until x)
        (unread : (j : ℕ) → is_opened id (x.calls j) ≡ false) where
      returns-IsRead : IsRead P s id until m.args.payload after
      returns-IsRead = record {
        reader = i;
        gone = gone;
        alone = alone-assign x.calls i c (is_opened id) i (λ j h. cc (unread j, h)) (λ h. refl);
        content = λ j n h. elim (assign-cases x.calls i c j) [
          | inl (_, is_new) ↦ cc (m.payload note.payload there, sym new ∙ sym is_new ∙ h)
          | inr old ↦ absurd (is_opened-false P s id until (x.calls j) n (unread j) (sym old ∙ h))
        ];
      }

      pub returns-IsMade : IsMade P s id until after
      returns-IsMade = record {
        maker = m.maker;
        args = m.args;
        draft = m.draft;
        made =
            assign_other x.calls i c m.maker (λ e.
              is_stored-false P s id until (x.calls i) m.args m.draft was_not_stored
                (ap x.calls e ∙ m.made) m.same)
            ∙ m.made;
        same = m.same;
        alone =
            alone-assign x.calls i c (is_stored id) m.maker m.alone
              (λ h. let flag = ap (is_stored id) new in cc (h, flag));
        marker_bytes = m.marker_bytes;
        used = k.used m.marker_bytes m.used;
        payload = λ p h. m.payload p (k.payload p h);
        read = inr returns-IsRead;
      }
