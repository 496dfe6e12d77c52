-- ===== src/Sql/Keyed.antt =====
-- Tables with a primary key: what the statements do to a row that is looked up by its key.
use llmbus.Shared.{
  ℕ, ◌+◌, String, ◌≡◌, ◌≢◌, refl, ◌∙◌, Bool, true, false, Option, none, some, List, [], ◌∷◌, ◌++◌,
  ◌==◌, eq_iff, eq_refl, arith, if◌then◌else◌, Bool-cases, Option-cases, inl, inr,
}
use llmbus.Sql.{find, update_where, changed, insert_or_ignore, count_where}

module _ {A : Type 0} (key : A → String) where
  -- no key is listed twice
  abbrev pub IsKeyed : List A → Type 0
  IsKeyed [] = Unit
  IsKeyed (row ∷ rows) = (find key (key row) rows ≡ none) × IsKeyed rows

  pub key-find : (k : String) (rows : List A) {row : A} → find key k rows ≡ some row → key row ≡ k
  key-find k [] h = cc
  key-find k (r ∷ rows) {row} h = ground (arith, eq_iff (key r) k, key-find k rows {row = row})

  pub find-append :
      (k : String) (rows : List A) (row : A)
      → find key k rows ≡ none
      → find key k (rows ++ row ∷ []) ≡ (if key row == k then some row else none)
  find-append k [] row h = refl
  find-append k (r ∷ rows) row h = ground (arith, find-append k rows row)

  pub find-append_found :
      (k : String) (rows : List A) (row : A) {old : A}
      → find key k rows ≡ some old
      → find key k (rows ++ row ∷ []) ≡ some old
  find-append_found k [] row h = cc
  find-append_found k (r ∷ rows) row {old} h =
      ground (arith, find-append_found k rows row {old = old})

  pub find-append_ne :
      (k : String) (rows : List A) (row : A)
      → (key row == k) ≡ false
      → find key k (rows ++ row ∷ []) ≡ find key k rows
  find-append_ne k [] row h = rw h
  find-append_ne k (r ∷ rows) row h = ground (arith, find-append_ne k rows row h)

  pub append-IsKeyed :
      (rows : List A) (row : A)
      → IsKeyed rows
      → find key (key row) rows ≡ none
      → IsKeyed (rows ++ row ∷ [])
  append-IsKeyed [] row h e = (refl, tt)
  append-IsKeyed (r ∷ rows) row h e = ground (
    arith,
    append-IsKeyed rows row h.1,
    find-append (key r) rows row h.0,
    eq_iff (key r) (key row),
    eq_iff (key row) (key r),
  )

  -- An update that leaves the keys alone.
  module _ (k : String) (test : A → Bool) (set : A → A)
      (keeps : (a : A) → key (set a) ≡ key a) where
    pub find-update_ne :
        (j : String) (rows : List A)
        → j ≢ k
        → find key j (update_where key k test set rows) ≡ find key j rows
    find-update_ne j [] h = refl
    find-update_ne j (r ∷ rows) h = ground (
      arith,
      find-update_ne j rows h,
      keeps r,
      eq_iff (key r) k,
      eq_iff (key r) j,
      eq_iff (key (set r)) j,
    )

    pub find-update_none :
        (j : String) (rows : List A)
        → find key j rows ≡ none
        → find key j (update_where key k test set rows) ≡ none
    find-update_none j [] h = refl
    find-update_none j (r ∷ rows) h =
        ground (arith, find-update_none j rows, keeps r, eq_iff (key r) j, eq_iff (key (set r)) j)

    pub update-IsKeyed : (rows : List A) → IsKeyed rows → IsKeyed (update_where key k test set rows)
    update-IsKeyed [] h = tt
    update-IsKeyed (r ∷ rows) h =
        ground (arith, update-IsKeyed rows h.1, find-update_none (key r) rows h.0, keeps r)

    -- No row passes: nothing changes.
    pub update-eq_none :
        (rows : List A)
        → find key k rows ≡ none
        → (update_where key k test set rows ≡ rows) × (changed key k test rows ≡ 0)
    update-eq_none [] h = (refl, refl)
    update-eq_none (r ∷ rows) h = ground (arith, update-eq_none rows)

    pub update-eq_skip :
        (rows : List A) {row : A}
        → IsKeyed rows
        → find key k rows ≡ some row
        → test row ≡ false
        → (update_where key k test set rows ≡ rows) × (changed key k test rows ≡ 0)
    update-eq_skip [] d h t = cc
    update-eq_skip (r ∷ rows) {row} d h t =
        ground (arith, eq_iff (key r) k, update-eq_none rows, update-eq_skip rows {row = row} d.1)

    pub find-update_self :
        (rows : List A) {row : A}
        → IsKeyed rows
        → find key k rows ≡ some row
        → test row ≡ true
        → (find key k (update_where key k test set rows) ≡ some (set row))
          × (changed key k test rows ≡ 1)
    find-update_self [] d h t = cc
    find-update_self (r ∷ rows) {row} d h t = ground (
      arith,
      eq_iff (key r) k,
      eq_iff (key (set r)) k,
      keeps r,
      update-eq_none rows,
      find-update_self rows {row = row} d.1,
    )

    abbrev pub updated : Option A → Option A
    updated none = none
    updated (some row) = if test row then some (set row) else some row

    abbrev pub hits : Option A → ℕ
    hits none = 0
    hits (some row) = if test row then 1 else 0

    -- The update, as a lookup sees it, and its row count.
    pub find-update :
        (j : String) (rows : List A)
        → IsKeyed rows
        → find key j (update_where key k test set rows)
          ≡ (if j == k then updated (find key j rows) else find key j rows)
    find-update j rows d = elim (Bool-cases (j == k)) [
      | inr other ↦ rw other (find-update_ne j rows (λ e. cc ((eq_iff j k).1 e)))
      | inl same ↦
          let e : j ≡ k = (eq_iff j k).0 same in
          rw same (
            rw e (elim (Option-cases (find key k rows)) [
              | inl absent ↦ rw absent (find-update_none k rows absent)
              | inr (row, found) ↦ elim (Bool-cases (test row)) [
                | inl passes ↦ rw (found, passes) ((find-update_self rows d found passes).0)
                | inr fails ↦ rw (found, fails) (rw ((update-eq_skip rows d found fails).0) found)
              ]
            ]))
    ]

    pub changed-find :
        (rows : List A) → IsKeyed rows → changed key k test rows ≡ hits (find key k rows)
    changed-find rows d = elim (Option-cases (find key k rows)) [
      | inl absent ↦ rw absent ((update-eq_none rows absent).1)
      | inr (row, found) ↦ elim (Bool-cases (test row)) [
        | inl passes ↦ rw (found, passes) ((find-update_self rows d found passes).1)
        | inr fails ↦ rw (found, fails) ((update-eq_skip rows d found fails).1)
      ]
    ]

    -- An update whose rows fail its own test afterwards takes what it changed off the count.
    pub count-update :
        (rows : List A)
        → ((a : A) → test (set a) ≡ false)
        → count_where test (update_where key k test set rows) + changed key k test rows
          ≡ count_where test rows
    count-update [] off = omega arith
    count-update (r ∷ rows) off = ground (arith, count-update rows off, off r)

  abbrev pub or_else : Option A → A → A
  or_else none row = row
  or_else (some old) row = old

  -- The insert, as a lookup sees it.
  pub find-insert :
      (j : String) (row : A) (rows : List A)
      → find key j (insert_or_ignore key row rows).0
        ≡ (if j == key row then some (or_else (find key j rows) row) else find key j rows)
  find-insert j row rows = elim (Option-cases (find key (key row) rows)) [
    | inr (old, found) ↦ elim (Bool-cases (j == key row)) [
      | inl same ↦
          let e : j ≡ key row = (eq_iff j (key row)).0 same in
          rw (found, insert_or_ignore) (rw same (rw e (rw found refl)))
      | inr other ↦ rw (found, insert_or_ignore) (rw other refl)
    ]
    | inl absent ↦ elim (Bool-cases (j == key row)) [
      | inl same ↦
          let e : j ≡ key row = (eq_iff j (key row)).0 same in
          rw (absent, insert_or_ignore)
            (rw same (rw e (rw absent (find-append (key row) rows row absent ∙ rw eq_refl refl))))
      | inr other ↦
          rw (absent, insert_or_ignore)
            (rw other
              (find-append_ne j rows row (ground (arith, eq_iff (key row) j, eq_iff j (key row)))))
    ]
  ]

  pub insert-IsKeyed :
      (row : A) (rows : List A) → IsKeyed rows → IsKeyed (insert_or_ignore key row rows).0
  insert-IsKeyed row rows d = elim (Option-cases (find key (key row) rows)) [
    | inl absent ↦ rw (absent, insert_or_ignore) (append-IsKeyed rows row d absent)
    | inr (old, found) ↦ rw (found, insert_or_ignore) d
  ]

  pub count-append :
      (test : A → Bool) (rows : List A) (row : A)
      → count_where test (rows ++ row ∷ []) ≡ count_where test rows + (if test row then 1 else 0)
  count-append test [] row = ground arith
  count-append test (r ∷ rows) row = ground (arith, count-append test rows row)
