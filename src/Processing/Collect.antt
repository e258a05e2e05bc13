-- ===== src/Processing/Collect.antt =====
-- Following the cursors of src/lib/processing/sort.ts gives every row, once and in order.
use evirion_engineering_memo.Prelude.{
  ℕ, zero, suc, ◌+◌, ◌*◌, ◌≡◌, ◌≤◌, ◌<◌, refl, sym, ◌∙◌, ap, subst, inl, inr, Bool, true, false,
  List, [], ◌∷◌, ◌++◌, Option, none, some, Bool-cases, Text, text_eq, text_eq_iff, text_eq_self,
  leb, leb→le, length, take, drop, any, length-append, take-append-drop, length-take, length-drop,
  drop-append_length, arith,
}
use evirion_engineering_memo.Processing.{
  page_size, ProcessingRow, behind, start_of, last_job, page_from, paginate_processing_rows,
  complete, same_cursor, collect_rounds, collect_cursor_pages,
}

-- No two rows have one extraction job.
abbrev pub Distinct : List ProcessingRow → Type 0
Distinct [] = Unit
Distinct (row ∷ rows) =
    (any (λ r. text_eq r.extraction_job_id row.extraction_job_id) rows ≡ false) × Distinct rows

any-append_later :
    (p : ProcessingRow → Bool) (xs : List ProcessingRow) (e : ProcessingRow)
    (ys : List ProcessingRow)
    → any p (xs ++ e ∷ ys) ≡ false
    → p e ≡ false
any-append_later p [] e ys h = elim (Bool-cases (p e)) [
  | inl a ↦ absurd (cc (rw a at h))
  | inr a ↦ a
]
any-append_later p (x ∷ xs) e ys h = elim (Bool-cases (p x)) [
  | inl a ↦ absurd (cc (rw a at h))
  | inr a ↦ any-append_later p xs e ys (rw a at h)
]

text_eq_from : (t s : Text) → text_eq s t ≡ false → t ≡ s → true ≡ false
text_eq_from t s h e = sym (text_eq_self t) ∙ ap (λ x. text_eq x t) e ∙ h

text_eq_sym_false : (s t : Text) → text_eq s t ≡ false → text_eq t s ≡ false
text_eq_sym_false s t h = elim (Bool-cases (text_eq t s)) [
  | inl e ↦ absurd (cc (text_eq_from t s h ((text_eq_iff t s).0 e)))
  | inr e ↦ e
]

-- The place behind a row among rows that are distinct.
behind-append :
    (xs : List ProcessingRow) (e : ProcessingRow) (ys : List ProcessingRow)
    → Distinct (xs ++ e ∷ ys)
    → behind e.extraction_job_id (xs ++ e ∷ ys) ≡ suc (length xs)
unfolding behind
behind-append [] e ys h = rw (text_eq_self e.extraction_job_id) refl
behind-append (x ∷ xs) e ys (fresh, h) =
    rw (text_eq_sym_false _ _ (any-append_later _ xs e ys fresh), behind-append xs e ys h) refl

snoc :
    (x : ProcessingRow) (xs : List ProcessingRow)
    → (ps : List ProcessingRow) × (e : ProcessingRow) × (x ∷ xs ≡ ps ++ e ∷ [])
snoc x [] = ([], x, refl)
snoc x (y ∷ xs) = let (ps, e, k) = snoc y xs in (x ∷ ps, e, ap (λ t. x ∷ t) k)

last_job-snoc :
    (ps : List ProcessingRow) (e : ProcessingRow)
    → last_job (ps ++ e ∷ []) ≡ some e.extraction_job_id
unfolding last_job
last_job-snoc [] e = refl
last_job-snoc (p ∷ []) e = refl
last_job-snoc (p ∷ q ∷ ps) e = last_job-snoc (q ∷ ps) e

snoc_of_length :
    (n : ℕ) (xs : List ProcessingRow)
    → length xs ≡ suc n
    → (ps : List ProcessingRow) × (e : ProcessingRow) × (xs ≡ ps ++ e ∷ []) × (length ps ≡ n)
snoc_of_length n [] h = absurd (omega (arith, h))
snoc_of_length n (x ∷ xs) h =
    let (ps, e, k) = snoc x xs in
    (ps, e, k, omega (arith, h, ap length k, length-append ps (e ∷ [])))

append_assoc : (xs ys zs : List ProcessingRow) → (xs ++ ys) ++ zs ≡ xs ++ (ys ++ zs)
append_assoc [] ys zs = refl
append_assoc (x ∷ xs) ys zs = ap (λ t. x ∷ t) (append_assoc xs ys zs)

page_of :
    (items pre post : List ProcessingRow) (after : Option Text)
    → pre ++ post ≡ items
    → start_of items after ≡ length pre
    → paginate_processing_rows items after ≡ page_from items (length pre) (take page_size post)
unfolding paginate_processing_rows
page_of items pre post after e start = rw start (
    ap (λ xs. page_from items (length pre) (take page_size xs))
      (ap (drop (length pre)) (sym e) ∙ drop-append_length pre post))

take-all : (n : ℕ) (xs : List ProcessingRow) → length xs ≤ n → take n xs ≡ xs
take-all zero [] h = refl
take-all zero (x ∷ xs) h = absurd (omega (arith, h))
take-all (suc n) [] h = refl
take-all (suc n) (x ∷ xs) h = ap (λ t. x ∷ t) (take-all n xs (omega (arith, h)))

cursor_moves :
    (items : List ProcessingRow) (next : Text) (after : Option Text) (n : ℕ)
    → start_of items after ≡ n
    → behind next items ≡ n + 20
    → same_cursor next after ≡ false
unfolding start_of
cursor_moves items next none n h k = refl
cursor_moves items next (some after) n h k = elim (Bool-cases (text_eq next after)) [
  | inr other ↦ other
  | inl same ↦
      absurd (omega (arith, h, k, ap (λ t. behind t items) ((text_eq_iff next after).0 same)))
]

leb-false : (a b : ℕ) → b < a → leb a b ≡ false
leb-false a b h = ground arith

leb-length :
    (items pre post : List ProcessingRow)
    → pre ++ post ≡ items
    → leb (length items) (length pre + length post) ≡ true
leb-length items pre post e = ground (arith, ap length e, length-append pre post)

leb-length-false :
    (items pre post : List ProcessingRow)
    → pre ++ post ≡ items
    → 20 < length post
    → leb (length items) (length pre + length (take 20 post)) ≡ false
leb-length-false items pre post e long =
    leb-false _ _ (omega (arith, long, ap length e, length-append pre post, length-take 20 post))

next_of :
    (ps : List ProcessingRow) (e : ProcessingRow) (post : List ProcessingRow)
    → take 20 post ≡ ps ++ e ∷ []
    → last_job (take 20 post) ≡ some e.extraction_job_id
next_of ps e post h = ap last_job h ∙ last_job-snoc ps e

-- A round on a page that is the last one.
last_round :
    (rounds : ℕ) (items pre post so_far : List ProcessingRow) (after : Option Text)
    → pre ++ post ≡ items
    → start_of items after ≡ length pre
    → length post ≤ 20
    → collect_rounds (paginate_processing_rows items) (suc rounds) so_far after
      ≡ complete (so_far ++ post)
unfolding collect_rounds
last_round rounds items pre post so_far after e start short =
    rw (page_of items pre post after e start, take-all 20 post short, leb-length items pre post e)
      refl

-- A round on a page with more behind it.
next_round :
    (rounds : ℕ) (items pre ps : List ProcessingRow) (e : ProcessingRow)
    (post so_far : List ProcessingRow) (after : Option Text)
    → pre ++ post ≡ items
    → start_of items after ≡ length pre
    → take 20 post ≡ ps ++ e ∷ []
    → 20 < length post
    → behind e.extraction_job_id items ≡ length pre + 20
    → collect_rounds (paginate_processing_rows items) (suc rounds) so_far after
      ≡ collect_rounds
          (paginate_processing_rows items)
          rounds
          (so_far ++ take 20 post)
          (some e.extraction_job_id)
unfolding collect_rounds
next_round rounds items pre ps e post so_far after whole start page long place =
    rw
      (
        page_of items pre post after whole start,
        leb-length-false items pre post whole long,
        next_of ps e post page,
        cursor_moves items e.extraction_job_id after (length pre) start place,
      )
      refl

leb_false→lt : (a b : ℕ) → leb a b ≡ false → b < a
leb_false→lt a b h = ground arith

page_full : (post : List ProcessingRow) → 20 < length post → length (take 20 post) ≡ 20
page_full post h = omega (arith, h, length-take 20 post)

regroup : (xs post : List ProcessingRow) → (xs ++ take 20 post) ++ drop 20 post ≡ xs ++ post
regroup xs post =
    append_assoc xs (take 20 post) (drop 20 post) ∙ ap (λ t. xs ++ t) (take-append-drop 20 post)

place_start :
    (pre post : List ProcessingRow)
    → 20 < length post
    → length pre + 20 ≡ length (pre ++ take 20 post)
place_start pre post h = omega (arith, length-append pre (take 20 post), page_full post h)

pre_page :
    (pre ps : List ProcessingRow) (e : ProcessingRow) (post : List ProcessingRow)
    → take 20 post ≡ ps ++ e ∷ []
    → (pre ++ ps) ++ e ∷ drop 20 post ≡ pre ++ post
pre_page pre ps e post page =
    append_assoc pre ps (e ∷ drop 20 post)
    ∙ ap (λ t. pre ++ t)
        (sym (append_assoc ps (e ∷ []) (drop 20 post))
          ∙ (ap (λ t. t ++ drop 20 post) (sym page) ∙ take-append-drop 20 post))

-- The row that ends a page stands behind the page.
place_of :
    (items pre ps : List ProcessingRow) (e : ProcessingRow) (post : List ProcessingRow)
    → Distinct items
    → pre ++ post ≡ items
    → take 20 post ≡ ps ++ e ∷ []
    → length ps ≡ 19
    → behind e.extraction_job_id items ≡ length pre + 20
place_of items pre ps e post distinct whole page nineteen =
    let split = pre_page pre ps e post page ∙ whole in
    subst (λ xs. behind e.extraction_job_id xs ≡ length pre + 20) split
      (behind-append (pre ++ ps) e (drop 20 post) (subst Distinct (sym split) distinct)
        ∙ omega (arith, nineteen, length-append pre ps))

collect_rounds-rest :
    (rounds : ℕ) (items pre post so_far : List ProcessingRow) (after : Option Text)
    → Distinct items
    → pre ++ post ≡ items
    → start_of items after ≡ length pre
    → length post ≤ 20 * suc rounds
    → collect_rounds (paginate_processing_rows items) (suc rounds) so_far after
      ≡ complete (so_far ++ post)
unfolding start_of
collect_rounds-rest zero items pre post so_far after distinct whole start enough =
    last_round zero items pre post so_far after whole start (omega (arith, enough))
collect_rounds-rest (suc rounds) items pre post so_far after distinct whole start enough =
    elim (Bool-cases (leb (length post) 20)) [
      | inl short ↦
          last_round (suc rounds) items pre post so_far after whole start (leb→le _ _ short)
      | inr long ↦
          let more = leb_false→lt (length post) 20 long in
          let (ps, e, page, nineteen) = snoc_of_length 19 (take 20 post) (page_full post more) in
          let place = place_of items pre ps e post distinct whole page nineteen in
          next_round (suc rounds) items pre ps e post so_far after whole start page more place
          ∙ collect_rounds-rest rounds items (pre ++ take 20 post) (drop 20 post)
              (so_far ++ take 20 post) (some e.extraction_job_id) distinct
              (regroup pre post ∙ whole) (place ∙ place_start pre post more)
              (omega (arith, enough, length-drop 20 post))
          ∙ ap complete (regroup so_far post)
    ]

-- Following the cursors from the first page collects exactly the rows, each once and in their order,
-- where no two of them have one job and the bound on the rounds reaches the last page.
pub collect_cursor_pages-paginate :
    (items : List ProcessingRow) (rounds : ℕ)
    → Distinct items
    → length items ≤ 20 * suc rounds
    → collect_cursor_pages (paginate_processing_rows items) (suc rounds) ≡ complete items
unfolding start_of
collect_cursor_pages-paginate items rounds distinct enough =
    collect_rounds-rest rounds items [] items [] none distinct refl refl enough
