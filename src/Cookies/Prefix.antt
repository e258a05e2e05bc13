-- ===== src/Cookies/Prefix.antt =====
-- The prefix that a chunk carries: its length when written, and its reading.
use mathlib.Core.List.{append_assoc}
use native.Mathlib.Nat.{zero-add, suc-add}
use evirion_engineering_memo.Prelude.{
  take-append-drop, drop-eq-nil, lt→ltb, ℕ, zero, suc, ◌+◌, ◌≤◌, ◌<◌, ◌≡◌, refl, true, List, [],
  ◌∷◌, ◌++◌, some, ok, arith, Text, all, length, take, drop, take-append_length, drop-append_length,
  decimal, number_of, byte_length, IsAscii, byte_length_ascii, byte_length-append, starts_with,
  subst,
}
use evirion_engineering_memo.Cookies.{is_word, is_generation}
use evirion_engineering_memo.Cookies.Serialize.{chunk_prefix, chunks_from}
use evirion_engineering_memo.Cookies.Parse.{
  is_slot_name, slot_suffix, Chunk, read_chunk, read_groups,
}

is_word-IsAscii : (s : Text) → all is_word s ≡ true → IsAscii s
unfolding is_word
is_word-IsAscii [] h = tt
is_word-IsAscii (c ∷ s) h = (ground arith, is_word-IsAscii s (ground arith))

pub is_generation-length : (g : Text) → is_generation g ≡ true → length g ≡ 8
unfolding is_generation
is_generation-length g h = ground arith

pub is_generation-IsAscii : (g : Text) → is_generation g ≡ true → IsAscii g
unfolding is_generation
is_generation-IsAscii g h = is_word-IsAscii g (ground arith)

pub decimal_digit : (n : ℕ) → n < 10 → decimal n ≡ (48 + n) ∷ []
unfolding decimal
decimal_digit n h = rw (lt→ltb n 10 h)

pub chunk_prefix_bytes :
    (g : Text) (index : ℕ)
    → is_generation g ≡ true
    → index < 10
    → byte_length (chunk_prefix g index) ≡ 13
chunk_prefix_bytes g index h lt =
    rw (decimal_digit index lt, decimal_digit 4 (omega arith))
      (rw (byte_length-append g _ (is_generation-IsAscii g h), is_generation-length g h)
        (rw (byte_length_ascii (b'.' ∷ (48 + index) ∷ b'.' ∷ 52 ∷ b'.' ∷ []) (omega arith)) refl))

pub is_slot_name-chunk_name : (base s : Text) → is_slot_name base (base ++ b'.' ∷ s) ≡ true
unfolding starts_with
is_slot_name-chunk_name [] s = refl
is_slot_name-chunk_name (x ∷ xs) s = ground (arith, is_slot_name-chunk_name xs s)

pub slot_suffix-chunk_name : (base s : Text) → slot_suffix base (base ++ b'.' ∷ s) ≡ s
slot_suffix-chunk_name [] s = refl
slot_suffix-chunk_name (x ∷ xs) s = slot_suffix-chunk_name xs s

take_eight : (g t : Text) → length g ≡ 8 → take 8 (g ++ t) ≡ g
take_eight g t e = subst (λ n. take n (g ++ t) ≡ g) e (take-append_length g t)

drop_eight : (g t : Text) → length g ≡ 8 → drop 8 (g ++ t) ≡ t
drop_eight g t e = subst (λ n. drop n (g ++ t) ≡ t) e (drop-append_length g t)

-- A chunk of generation `g` at a one-digit index, as it is read.
abbrev pub chunk_of : Text → ℕ → Text → Chunk
chunk_of g index body = record { index = index; total = 4; generation = g; body = body }

read_groups-prefix :
    (g body : Text) (index : ℕ)
    → index < 10
    → read_groups g (b'.' ∷ (48 + index) ∷ b'.' ∷ 52 ∷ b'.' ∷ body) ≡ some (chunk_of g index body)
unfolding read_groups number_of
read_groups-prefix g body index lt = ground arith

pub read_chunk-prefix :
    (g body : Text) (index : ℕ)
    → is_generation g ≡ true
    → index < 10
    → read_chunk (chunk_prefix g index ++ body) ≡ some (chunk_of g index body)
unfolding read_chunk
read_chunk-prefix g body index h lt =
    rw (decimal_digit index lt, decimal_digit 4 (omega arith), append_assoc)
      (rw (take_eight g _ (is_generation-length g h), drop_eight g _ (is_generation-length g h), h)
        (read_groups-prefix g body index lt))

-- The chunk at an index and a cursor.
abbrev pub chunk_at : Text → Text → ℕ → ℕ → Text
chunk_at g payload index cursor = chunk_prefix g index ++ take 3059 (drop cursor payload)

chunks_from-suc :
    (g payload : Text) (rounds index cursor : ℕ) {cs : List Text} {last : ℕ}
    → is_generation g ≡ true
    → index < 10
    → chunks_from g payload rounds (index + 1) (cursor + 3059) ≡ ok (cs, last)
    → chunks_from g payload (suc rounds) index cursor
      ≡ ok (chunk_at g payload index cursor ∷ cs, last)
unfolding chunks_from
chunks_from-suc g payload rounds index cursor h lt e =
    rw (chunk_prefix_bytes g index h lt, chunks_from)
      (rw (e, chunks_from) (rw (chunk_prefix_bytes g index h lt)))

abbrev pub four_chunks : Text → Text → List Text
four_chunks g payload =
    chunk_at g payload 0 0
    ∷ chunk_at g payload 1 3059
    ∷ chunk_at g payload 2 6118
    ∷ chunk_at g payload 3 9177
    ∷ []

pub chunks_from_lem :
    (g payload : Text)
    → is_generation g ≡ true
    → chunks_from g payload 4 0 0 ≡ ok (four_chunks g payload, 12236)
chunks_from_lem g payload h = chunks_from-suc g payload 3 0 0 h (omega arith) (
    chunks_from-suc g payload 2 1 3059 h (omega arith) (
      chunks_from-suc g payload 1 2 6118 h (omega arith)
        (chunks_from-suc g payload 0 3 9177 h (omega arith) (unfold chunks_from in refl))))

pieces : (n m : ℕ) (s : Text) → take n (drop m s) ++ drop (m + n) s ≡ drop m s
pieces n zero s = rw zero-add (take-append-drop n s)
pieces zero (suc m) [] = rw suc-add
pieces (suc n) (suc m) [] = rw suc-add
pieces n (suc m) (x ∷ s) = rw suc-add (pieces n m s)

-- Pieces of `n`, taken one behind the other, make up a text that they cover.
pieces_cover :
    (n a b c d : ℕ) (s : Text)
    → 0 + n ≡ a
    → a + n ≡ b
    → b + n ≡ c
    → c + n ≡ d
    → length s ≤ d
    → take n (drop 0 s) ++ (take n (drop a s) ++ (take n (drop b s) ++ (take n (drop c s) ++ [])))
      ≡ s
pieces_cover n a b c d s ea eb ec ed h =
    let last : take n (drop c s) ++ [] ≡ drop c s = rw (← drop-eq-nil d s h, ← ed) (pieces n c s) in
    rw last (rw (← ec, pieces n b s) (rw (← eb, pieces n a s) (rw (← ea) (pieces n 0 s))))

pub join_pieces :
    (s : Text)
    → length s ≤ 12236
    → take 3059 (drop 0 s)
        ++ (take 3059 (drop 3059 s) ++ (take 3059 (drop 6118 s) ++ (take 3059 (drop 9177 s) ++ [])))
      ≡ s
join_pieces s h = pieces_cover 3059 3059 6118 9177 12236 s refl refl refl refl h
