-- ===== src/Stream/Join.antt =====
-- The loop of unreliablefs/unreliablefs/afs_server.cc and afs_client.cc cuts a file without loss.
use bnfs.Base.{
  List, ℕ, zero, suc, ◌≤◌, ◌<◌, [], ◌∷◌, ◌++◌, Bytes, All, length, take, drop, leb, ◌==◌, ◌↔◌, ◌≡◌,
  ◌≢◌, refl, ap, ◌∙◌, arith, inl, inr, Bool-cases, append-nil, take-append-drop, length-take,
  length-drop, ◌+◌, sym,
}
use bnfs.Stream.{chunk_loop, chunks, join, c_string}

join-chunk_loop :
    (fuel n : ℕ) (contents : Bytes)
    → 0 < n
    → length contents < fuel
    → join (chunk_loop fuel n contents) ≡ contents
unfolding chunk_loop join
join-chunk_loop zero n contents h k = absurd (omega arith)
join-chunk_loop (suc fuel) n contents h k = elim (Bool-cases (leb n (length contents))) [
  | inl full ↦ rw full (
      ap (◌++◌ (take n contents))
        (join-chunk_loop fuel n (drop n contents) h (ground (arith, length-drop n contents)))
      ∙ take-append-drop n contents)
  | inr part ↦ rw part (append-nil contents)
]

-- Joining the messages of a file gives the file back, for every buffer size but 0.
pub join-chunks : (n : ℕ) (contents : Bytes) → 0 < n → join (chunks n contents) ≡ contents
unfolding chunks
join-chunks n contents h = join-chunk_loop (suc (length contents)) n contents h (omega arith)

take-append : (xs ys : Bytes) (n : ℕ) → take (length xs + n) (xs ++ ys) ≡ xs ++ take n ys
take-append [] ys n = ap (λ k. take k ys) {x = 0 + n} {y = n} (omega arith)
take-append (x ∷ xs) ys n =
    ap (λ k. take k (x ∷ (xs ++ ys))) {x = suc (length xs) + n} {y = suc (length xs + n)}
      (omega arith)
    ∙ ap (◌∷◌ x) (take-append xs ys n)

-- The first messages joined are a leading part of all of them joined.
pub join-take : (n : ℕ) (ms : List Bytes) → (k : ℕ) × (join (take n ms) ≡ take k (join ms))
unfolding join
join-take zero ms = (0, refl)
join-take (suc n) [] = (0, refl)
join-take (suc n) (m ∷ ms) =
    let (k, e) = join-take n ms in (length m + k, ap (◌++◌ m) e ∙ sym (take-append m (join ms) k))

-- There is always a last message, if only an empty one.
pub chunks_first :
    (n : ℕ) (contents : Bytes) → (m : Bytes) × (ms : List Bytes) × (chunks n contents ≡ m ∷ ms)
unfolding chunks chunk_loop
chunks_first n contents = elim (Bool-cases (leb n (length contents))) [
  | inl full ↦ (take n contents, chunk_loop (length contents) n (drop n contents), rw full)
  | inr part ↦ (contents, [], rw part)
]

chunk_loop_short :
    (fuel n : ℕ) (contents : Bytes) → All (λ m. length m ≤ n) (chunk_loop fuel n contents)
unfolding chunk_loop
chunk_loop_short zero n contents = tt
chunk_loop_short (suc fuel) n contents = elim (Bool-cases (leb n (length contents))) [
  | inl full ↦
      rw full (ground (arith, length-take n contents), chunk_loop_short fuel n (drop n contents))
  | inr part ↦ rw part (ground arith, tt)
]

-- No message is longer than the buffer.
chunks_short : (n : ℕ) (contents : Bytes) → All (λ m. length m ≤ n) (chunks n contents)
unfolding chunks
chunks_short n contents = chunk_loop_short (suc (length contents)) n contents

-- A string without NUL is its own C string, and no other is.
pub c_string_iff : (bs : Bytes) → (c_string bs ≡ bs) ↔ All (λ b. b ≢ 0) bs
unfolding c_string
c_string_iff [] = (λ _. tt, λ _. refl)
c_string_iff (b ∷ bs) = elim (Bool-cases (b == 0)) [
  | inl nul ↦ (λ e. ground arith, λ h. absurd (h.0 (ground arith)))
  | inr other ↦
      rw other
        (λ e. (ground arith, (c_string_iff bs).0 (cc)), λ h. ap (◌∷◌ b) ((c_string_iff bs).1 h.1))
]

-- The C string stops at the first NUL.
pub c_string-nul :
    (front back : Bytes) → All (λ b. b ≢ 0) front → c_string (front ++ (0 ∷ back)) ≡ front
unfolding c_string
c_string-nul [] back h = refl
c_string-nul (b ∷ bs) back h = ground (arith, h.0, c_string-nul bs back h.1)
