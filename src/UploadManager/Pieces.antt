-- ===== src/UploadManager/Pieces.antt =====
-- The division of a file into consecutive pieces, by their digests.
use friendly_ai_explorer.Common.{
  length, take, drop, length-take, length-drop, flatten-append, Bytes, ℕ, zero, suc, ◌+◌, ◌-◌, ◌≤◌,
  min, ◌≡◌, refl, sym, ap, ap₂, ◌∙◌, List, [], ◌∷◌, ◌++◌, map, append-nil, arith, flatten,
}
use friendly_ai_explorer.UploadManager.Transfer.{slice}

pub take-slice : (file : Bytes) (a b : ℕ) → a ≤ b → take b file ≡ take a file ++ slice file a b
take-slice file zero b h = let e : b ≡ b - 0 = omega arith in ap (λ n. take n file) e
take-slice [] (suc a) zero h = absurd (omega arith)
take-slice [] (suc a) (suc b) h = nothing (suc b - suc a)
  where
    nothing : (n : ℕ) → [] ≡ take {A = ℕ} n []
    nothing zero = refl
    nothing (suc n) = refl
take-slice (x ∷ xs) (suc a) zero h = absurd (omega arith)
take-slice (x ∷ xs) (suc a) (suc b) h =
    let e : b - a ≡ suc b - suc a = omega arith in
    ap (◌∷◌ x) (take-slice xs a b (omega arith) ∙ ap (λ n. take a xs ++ take n (drop a xs)) e)

map-append : {A B : Type 0} (f : A → B) (xs ys : List A) → map f (xs ++ ys) ≡ map f xs ++ map f ys
map-append f [] ys = refl
map-append f (x ∷ xs) ys = ap (◌∷◌ (f x)) (map-append f xs ys)

-- The pieces have the digests of pieces that, joined, are the file up to the offset.
abbrev pub Covers : (Bytes → ℕ) → Bytes → ℕ → List Bytes → Type 0
Covers hash file offset pieces =
    (cuts : List Bytes) × (flatten cuts ≡ take offset file) × (map hash pieces ≡ map hash cuts)

pub Covers-none : (hash : Bytes → ℕ) (file : Bytes) → Covers hash file 0 []
unfolding flatten
Covers-none hash file = ([], refl, refl)

-- One more piece, whose digest is that of the file's next slice.
pub Covers-extend :
    (hash : Bytes → ℕ) (file : Bytes) (a b : ℕ) (pieces : List Bytes) (piece : Bytes)
    → Covers hash file a pieces
    → a ≤ b
    → hash (slice file a b) ≡ hash piece
    → Covers hash file b (pieces ++ (piece ∷ []))
unfolding flatten
Covers-extend hash file a b pieces piece (cuts, joined, same) h e =
    let next = slice file a b in
    (
      cuts ++ (next ∷ []),
      flatten-append cuts (next ∷ [])
          ∙ ap₂ (◌++◌) joined (append-nil next)
          ∙ sym (take-slice file a b h),
      map-append hash pieces (piece ∷ [])
          ∙ ap₂ (◌++◌) same (ap (λ d. d ∷ []) (sym e))
          ∙ sym (map-append hash cuts (next ∷ [])),
    )

take-all : (file : Bytes) (n : ℕ) → length file ≤ n → take n file ≡ file
take-all [] zero h = refl
take-all [] (suc n) h = refl
take-all (x ∷ xs) zero h = absurd (omega arith)
take-all (x ∷ xs) (suc n) h = ap (◌∷◌ x) (take-all xs n (omega arith))

-- Pieces with the digests of pieces that, joined, are the whole file.
abbrev pub Divides : (Bytes → ℕ) → Bytes → List Bytes → Type 0
Divides hash file pieces =
    (cuts : List Bytes) × (flatten cuts ≡ file) × (map hash pieces ≡ map hash cuts)

pub Covers-all :
    (hash : Bytes → ℕ) (file : Bytes) (offset : ℕ) (pieces : List Bytes)
    → Covers hash file offset pieces
    → length file ≤ offset
    → Divides hash file pieces
Covers-all hash file offset pieces (cuts, joined, same) h =
    (cuts, joined ∙ take-all file offset h, same)

pub length-map : {A B : Type 0} (f : A → B) (xs : List A) → length (map f xs) ≡ length xs
length-map f [] = refl
length-map f (x ∷ xs) = ap suc (length-map f xs)

-- A slice of at most `size` bytes ends where the file does, or after `size` bytes.
pub slice_end :
    (file : Bytes) (offset size : ℕ)
    → offset ≤ length file
    → offset + length (slice file offset (min (length file) (offset + size)))
      ≡ min (length file) (offset + size)
slice_end file offset size h =
    let upto = min (length file) (offset + size) in
    omega (arith, length-take (upto - offset) (drop offset file), length-drop offset file)
