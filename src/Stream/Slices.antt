-- ===== src/Stream/Slices.antt =====
-- The loop of unreliablefs/unreliablefs/afs_server.cc and afs_client.cc against a description of
-- its messages one by one.
use bnfs.Base.{
  ℕ, zero, suc, ◌+◌, ◌*◌, ◌≤◌, ◌<◌, Option, none, some, [], ◌∷◌, Bytes, length, take, drop, leb,
  get_elem?, ◌≡◌, refl, sym, ap, ◌∙◌, arith, inl, inr, Bool-cases, length-drop, take_all,
  if◌then◌else◌,
}
use bnfs.Stream.{chunk_loop, chunks}

-- The bytes from `start` on, `n` of them or what there is; none past the end.
unfoldable pub slice : ℕ → (start : ℕ) → Bytes → Option Bytes
slice n start contents =
    if leb start (length contents) then some (take n (drop start contents)) else none

drop_nil : (n : ℕ) → drop {A = ℕ} n [] ≡ []
drop_nil zero = refl
drop_nil (suc n) = refl

drop-drop : (m n : ℕ) (bs : Bytes) → drop m (drop n bs) ≡ drop (n + m) bs
drop-drop m zero bs = ap (λ k. drop k bs) (omega arith)
drop-drop m (suc n) [] = drop_nil m ∙ sym (drop_nil (suc n + m))
drop-drop m (suc n) (b ∷ bs) =
    drop-drop m n bs ∙ ap (λ k. drop k (b ∷ bs)) {x = suc (n + m)} (omega arith)

slice-drop :
    (n start : ℕ) (contents : Bytes)
    → n ≤ length contents
    → slice n start (drop n contents) ≡ slice n (n + start) contents
unfolding slice
slice-drop n start contents h = ground (arith, length-drop n contents, drop-drop start n contents)

slice_part :
    (n i : ℕ) (contents : Bytes) → length contents < n → slice n (suc i * n) contents ≡ none
unfolding slice
slice_part n i contents h = ground arith

slice_first : (n : ℕ) (contents : Bytes) → some (take n contents) ≡ slice n (0 * n) contents
unfolding slice
slice_first n contents = ground arith

chunk_loop-slice :
    (fuel n : ℕ) (contents : Bytes) (i : ℕ)
    → 0 < n
    → length contents < fuel
    → get_elem? (chunk_loop fuel n contents) i ≡ slice n (i * n) contents
unfolding chunk_loop
chunk_loop-slice zero n contents i h k = absurd (omega arith)
chunk_loop-slice (suc fuel) n contents zero h k = elim (Bool-cases (leb n (length contents))) [
  | inl full ↦ rw full (slice_first n contents)
  | inr part ↦
      rw part (ap some (sym (take_all n contents (ground (arith, part)))) ∙ slice_first n contents)
]
chunk_loop-slice (suc fuel) n contents (suc i) h k = elim (Bool-cases (leb n (length contents))) [
  | inl full ↦ rw full (
      chunk_loop-slice fuel n (drop n contents) i h (ground (arith, length-drop n contents))
      ∙ slice-drop n (i * n) contents (ground (arith, full))
      ∙ ap (λ k. slice n k contents) (omega arith))
  | inr part ↦ rw part (sym (slice_part n i contents (ground (arith, part))))
]

-- With a buffer of at least one byte: message number `i` of a file, from 0 on, is the slice from
-- `i * n` on of `n` bytes, or of what is left there; no message starts past the end of the file.
pub chunks-slice :
    (n : ℕ) (contents : Bytes) (i : ℕ)
    → 0 < n
    → get_elem? (chunks n contents) i ≡ slice n (i * n) contents
unfolding chunks
chunks-slice n contents i h = chunk_loop-slice (suc (length contents)) n contents i h (omega arith)
