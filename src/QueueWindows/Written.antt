-- ===== src/QueueWindows/Written.antt =====
-- What `sync_row` decides of the row at one time, and what the writes and deletes leave there.
use queueboard_core.Prelude.{
  ℕ, ◌≡◌, refl, sym, ap, ◌∙◌, inl, inr, false, ◌||◌, Option, none, some, [], ◌∷◌, ◌++◌,
  if◌then◌else◌, keep, is_some, ◌==◌, nat_eq, nat_beq_iff, Bool-cases, Option-cases, arith,
}
use queueboard_core.Prelude.Dict.{get, put, has_key, get-put}
use queueboard_core.QueueWindows.Rebuild.{
  Row, row_eq, WindowRows, Sync, pop, sync_row, write, delete,
}

get-pop : (k j : ℕ) (rows : WindowRows) → get k (pop j rows) ≡ (if j == k then none else get k rows)
unfolding pop keep get
get-pop k j [] = ground arith
get-pop k j ((i, r) ∷ rows) =
    ground (arith, get-pop k j rows, nat_beq_iff i j, nat_beq_iff i k, nat_beq_iff j k)

get-delete :
    (k : ℕ) (gone rows : WindowRows)
    → get k (delete gone rows) ≡ (if has_key k gone then none else get k rows)
unfolding delete get
get-delete k [] rows = refl
get-delete k ((i, r) ∷ gone) rows = ground (arith, get-delete k gone (pop i rows), get-pop k i rows)

write_same :
    (k : ℕ) (xs a b : WindowRows) → get k a ≡ get k b → get k (write xs a) ≡ get k (write xs b)
unfolding write
write_same k [] a b e = e
write_same k ((i, r) ∷ xs) a b e =
    write_same k xs (put i r a) (put i r b) (ground (arith, get-put k i r a, get-put k i r b))

write_absent :
    (k : ℕ) (xs rows : WindowRows) → has_key k xs ≡ false → get k (write xs rows) ≡ get k rows
unfolding write get
write_absent k [] rows e = refl
write_absent k ((i, r) ∷ xs) rows e =
    ground (arith, write_absent k xs (put i r rows), get-put k i r rows)

get-write_last :
    (k i : ℕ) (r : Row) (xs rows : WindowRows)
    → get k (write (xs ++ (i, r) ∷ []) rows) ≡ (if i == k then some r else get k (write xs rows))
unfolding write
get-write_last k i r [] rows = get-put k i r rows
get-write_last k i r ((j, s) ∷ xs) rows = get-write_last k i r xs (put j s rows)

has_key_last :
    (k i : ℕ) (r : Row) (xs : WindowRows) → has_key k (xs ++ (i, r) ∷ []) ≡ (has_key k xs || i == k)
unfolding get
has_key_last k i r [] = ground arith
has_key_last k i r ((j, s) ∷ xs) = ground (arith, has_key_last k i r xs)

pop_gone : (k : ℕ) (rows : WindowRows) → has_key k (pop k rows) ≡ false
pop_gone k rows = ground (arith, get-pop k k rows, nat_beq_iff k k)

pop_other : (k i : ℕ) (rows : WindowRows) → (i == k) ≡ false → get k (pop i rows) ≡ get k rows
pop_other k i rows ne = ground (arith, get-pop k i rows)

write_own :
    (k : ℕ) (r : Row) (xs rows : WindowRows) → get k (write (xs ++ (k, r) ∷ []) rows) ≡ some r
write_own k r xs rows =
    get-write_last k k r xs rows ∙ (let e = (nat_beq_iff k k).1 refl in rw e refl)

write_other :
    (k i : ℕ) (r : Row) (xs rows : WindowRows)
    → (i == k) ≡ false
    → get k (write (xs ++ (i, r) ∷ []) rows) ≡ get k (write xs rows)
write_other k i r xs rows ne = get-write_last k i r xs rows ∙ rw ne refl

absent_last :
    (k i : ℕ) (r : Row) (xs : WindowRows)
    → (i == k) ≡ false
    → has_key k xs ≡ false
    → has_key k (xs ++ (i, r) ∷ []) ≡ false
absent_last k i r xs ne e = ground (arith, has_key_last k i r xs)

module _ (store : WindowRows) (k : ℕ) where
  abbrev pub written : Sync → Option Row
  written s = get k (write s.to_update (write s.to_create store))

  unfoldable pub outcome : Sync → Option Row
  outcome s = get k (delete s.existing (write s.to_update (write s.to_create store)))

  -- The loop has not come to a window that starts at `k`.
  pub record IsUntouched (s : Sync) : Type 0 where
    pub existing_as_stored : get k s.existing ≡ get k store
    pub not_created : has_key k s.to_create ≡ false
    pub not_updated : has_key k s.to_update ≡ false

  -- The loop has decided that the row at `k` is `o`.
  pub record IsSettled (o : Option Row) (s : Sync) : Type 0 where
    pub not_left : has_key k s.existing ≡ false
    pub row_written : written s ≡ o

  pub sync_row-IsSettled :
      (row : Row) (s : Sync) (f : Option Row)
      → get k s.existing ≡ f
      → IsUntouched s
      → IsSettled (some row) (sync_row k row f s)
  unfolding sync_row
  sync_row-IsSettled row s none e u = record {
    not_left = pop_gone k s.existing;
    row_written =
        write_absent k s.to_update (write (s.to_create ++ (k, row) ∷ []) store) u.not_updated
        ∙ write_own k row s.to_create store;
  }
  sync_row-IsSettled row s (some obj) e u = elim (Bool-cases (obj == row)) [
    | inl p ↦ rw p (record {
      not_left = pop_gone k s.existing;
      row_written =
          write_absent k s.to_update (write s.to_create store) u.not_updated
          ∙ write_absent k s.to_create store u.not_created
          ∙ sym u.existing_as_stored
          ∙ e
          ∙ ap some ((row_eq.beq_iff obj row).0 p);
    })
    | inr p ↦ rw p (record {
      not_left = pop_gone k s.existing;
      row_written = write_own k row s.to_update (write s.to_create store);
    })
  ]

  module _ (i : ℕ) (row : Row) (s : Sync) (ne : (i == k) ≡ false) where
    still_gone : has_key k s.existing ≡ false → has_key k (pop i s.existing) ≡ false
    still_gone h = ap is_some (pop_other k i s.existing ne) ∙ h

    pub sync_row_kept : (o f : Option Row) → IsSettled o s → IsSettled o (sync_row i row f s)
    unfolding sync_row
    sync_row_kept o none h = record {
      not_left = still_gone h.not_left;
      row_written =
          write_same k s.to_update (write (s.to_create ++ (i, row) ∷ []) store)
            (write s.to_create store) (write_other k i row s.to_create store ne)
          ∙ h.row_written;
    }
    sync_row_kept o (some obj) h = elim (Bool-cases (obj == row)) [
      | inl p ↦ rw p (record { not_left = still_gone h.not_left; row_written = h.row_written })
      | inr p ↦ rw p (record {
        not_left = still_gone h.not_left;
        row_written = write_other k i row s.to_update (write s.to_create store) ne ∙ h.row_written;
      })
    ]

    pub sync_row-IsUntouched : (f : Option Row) → IsUntouched s → IsUntouched (sync_row i row f s)
    unfolding sync_row
    sync_row-IsUntouched none u = record {
      existing_as_stored = pop_other k i s.existing ne ∙ u.existing_as_stored;
      not_created = absent_last k i row s.to_create ne u.not_created;
      not_updated = u.not_updated;
    }
    sync_row-IsUntouched (some obj) u = elim (Bool-cases (obj == row)) [
      | inl p ↦ rw p (record {
        existing_as_stored = pop_other k i s.existing ne ∙ u.existing_as_stored;
        not_created = u.not_created;
        not_updated = u.not_updated;
      })
      | inr p ↦ rw p (record {
        existing_as_stored = pop_other k i s.existing ne ∙ u.existing_as_stored;
        not_created = u.not_created;
        not_updated = absent_last k i row s.to_update ne u.not_updated;
      })
    ]

  pub IsSettled-outcome : (o : Option Row) (s : Sync) → IsSettled o s → outcome s ≡ o
  unfolding outcome
  IsSettled-outcome o s h =
      get-delete k s.existing (write s.to_update (write s.to_create store))
      ∙ (let e = h.not_left in rw e h.row_written)

  pub IsUntouched-outcome : (s : Sync) → IsUntouched s → outcome s ≡ none
  unfolding outcome
  IsUntouched-outcome s u =
      get-delete k s.existing (write s.to_update (write s.to_create store))
      ∙ elim (Option-cases (get k s.existing)) [
        | inl e ↦ rw e (
            write_absent k s.to_update (write s.to_create store) u.not_updated
            ∙ write_absent k s.to_create store u.not_created
            ∙ sym u.existing_as_stored
            ∙ e)
        | inr e ↦ rw e.1 refl
      ]
