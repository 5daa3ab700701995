-- ===== src/Cache/Setup.antt =====
-- The directories of a client that starts: `initDir`, `cleanTempDir` and `initCache` of
-- unreliablefs/unreliablefs/cache_helper.cc, and `NewAFSClient` of afs_client.cc. The entries of a
-- directory are those that it has when it is opened.
use bnfs.Base.{
  ℕ, Bool, true, false, ◌&&◌, ◌||◌, none, some, List, [], ◌∷◌, ◌++◌, Bytes, codes, same, same_iff,
  same_refl, same-ne, ◌≡◌, ◌≢◌, refl, ◌∙◌, inl, inr, arith, Bool-cases, Option-cases, if◌then◌else◌,
}
use bnfs.Hash.{client_dir_root, cache_dir, temp_dir, get_cache_path, get_temp_path, get_hashed_path}
use bnfs.Posix.{Posix, Entry, Stat, ret, got, failed, mkdir, remove}
use bnfs.Posix.Laws.{IsLawful, after, Ret-cases, Answer-cases}
use bnfs.Cache.{Client}

-- `path + "/" + name`
abbrev pub in_dir : Bytes → Bytes → Bytes
in_dir dir name = dir ++ (codes "/" ++ name)

module _ (P : Posix) where
  open P use {World, sys, stat, entries, slurp}

  unfoldable pub init_dir : Bytes → World → World
  init_dir path w = elim (stat w path) [ got st ↦ w | failed e ↦ (sys (mkdir path 493) w).1 ]

  -- The loop over `readdir`.
  unfoldable pub remove_entries : (dir : Bytes) → List Entry → World → World
  remove_entries dir [] w = w
  remove_entries dir (e ∷ es) w =
      remove_entries dir es (if e.is_regular then (sys (remove (in_dir dir e.name)) w).1 else w)

  unfoldable pub clean_temp_dir : World → World
  unfolding remove_entries
  clean_temp_dir w = elim (stat w temp_dir) [
    | failed e ↦ w
    | got st ↦ elim (entries w temp_dir) [ failed e ↦ w | got es ↦ remove_entries temp_dir es w ]
  ]

  abbrev pub with_dirs : World → World
  with_dirs w = init_dir temp_dir (init_dir cache_dir (init_dir client_dir_root w))

  unfoldable pub init_cache : World → World
  unfolding clean_temp_dir
  init_cache w = clean_temp_dir (with_dirs w)

  -- The static set of dirty files is empty when the program starts.
  unfoldable pub new_afs_client : (sha256 : Bytes → Bytes) → World → Client P sha256
  new_afs_client sha256 w = record { world = init_cache w; dirty_files = [] }

  -- The name is that of a regular file in the list.
  abbrev pub is_listed : Bytes → List Entry → Bool
  is_listed name [] = false
  is_listed name (e ∷ es) = (e.is_regular && same e.name name) || is_listed name es

  module _ (L : IsLawful P) where
    init_dir_quiet : (path : Bytes) (w : World) (q : Bytes) → slurp (init_dir path w) q ≡ slurp w q
    unfolding init_dir
    init_dir_quiet path w q = elim (Answer-cases (stat w path)) [
      | inl (st, e) ↦ rw (e, init_dir) refl
      | inr (n, e) ↦ rw (e, init_dir) (L.slurp_quiet (mkdir path 493) w q refl)
    ]

    with_dirs_quiet : (w : World) (q : Bytes) → slurp (with_dirs w) q ≡ slurp w q
    with_dirs_quiet w q =
        init_dir_quiet temp_dir _ q
        ∙ init_dir_quiet cache_dir _ q
        ∙ init_dir_quiet client_dir_root w q

    -- A `remove` leaves every other file as it was, and no file comes into being.
    remove_other : (p q : Bytes) (w : World) → p ≢ q → slurp (after P (remove p) w) q ≡ slurp w q
    remove_other p q w apart = elim (Ret-cases (sys (remove p) w).0) [
      | inl (n, e) ↦ L.slurp-remove p w q n e ∙ rw (same-ne p q apart)
      | inr (n, e) ↦ L.slurp_failed (remove p) w q n refl e
    ]

    remove_gone :
        (p q : Bytes) (w : World) → slurp w q ≡ none → slurp (after P (remove p) w) q ≡ none
    remove_gone p q w gone = elim (Ret-cases (sys (remove p) w).0) [
      | inl (n, e) ↦ ground (arith, L.slurp-remove p w q n e, gone)
      | inr (n, e) ↦ L.slurp_failed (remove p) w q n refl e ∙ gone
    ]

    remove_entries_other :
        (dir : Bytes) (es : List Entry) (w : World) (q : Bytes)
        → ((name : Bytes) → in_dir dir name ≢ q)
        → slurp (remove_entries dir es w) q ≡ slurp w q
    unfolding remove_entries
    remove_entries_other dir [] w q apart = refl
    remove_entries_other dir (e ∷ es) w q apart =
        remove_entries_other dir es _ q apart ∙ (elim (Bool-cases e.is_regular) [
          | inl r ↦ rw r (remove_other (in_dir dir e.name) q w (apart e.name))
          | inr r ↦ rw r refl
        ])

    remove_entries_gone :
        (dir : Bytes) (es : List Entry) (w : World) (q : Bytes)
        → slurp w q ≡ none
        → slurp (remove_entries dir es w) q ≡ none
    unfolding remove_entries
    remove_entries_gone dir [] w q gone = gone
    remove_entries_gone dir (e ∷ es) w q gone =
        remove_entries_gone dir es _ q (elim (Bool-cases e.is_regular) [
          | inl r ↦ rw r (remove_gone (in_dir dir e.name) q w gone)
          | inr r ↦ rw r gone
        ])

    -- Removing a file that is there succeeds, in every state.
    abbrev pub Removes : Type 0
    Removes =
        (p c : Bytes) (w : World) → slurp w p ≡ some c → (n : ℕ) × ((sys (remove p) w).0 ≡ ret n)

    remove_there : Removes → (p : Bytes) (w : World) → slurp (after P (remove p) w) p ≡ none
    remove_there removes p w = elim (Option-cases (slurp w p)) [
      | inl gone ↦ remove_gone p p w gone
      | inr (c, there) ↦
          let (n, e) = removes p c w there in L.slurp-remove p w p n e ∙ rw (same_refl p)
    ]

    remove_entries_listed :
        Removes
        → (dir : Bytes) (es : List Entry) (w : World) (name : Bytes) → is_listed name es ≡ true
        → slurp (remove_entries dir es w) (in_dir dir name) ≡ none
    unfolding remove_entries
    remove_entries_listed removes dir [] w name h = absurd (ground (arith, h))
    remove_entries_listed removes dir (e ∷ es) w name h =
        elim (Bool-cases (e.is_regular && same e.name name)) [
          | inl here ↦
              let regular : e.is_regular ≡ true = ground (arith, here) in
              let named : e.name ≡ name = ground (arith, here, same_iff e.name name) in
              remove_entries_gone dir es _ (in_dir dir name)
                (rw (regular, named) (remove_there removes (in_dir dir name) w))
          | inr apart ↦ remove_entries_listed removes dir es _ name (ground (arith, h, apart))
        ]

    -- What the temp directory holds when a client starts: it is there and can be read, and every
    -- file in it is listed as a regular file.
    pub record Lists (w : World) : Type 0 where
      pub dir : Stat
      pub is_there : stat w temp_dir ≡ got dir
      pub es : List Entry
      pub reads : entries w temp_dir ≡ got es
      pub complete :
          (name c : Bytes) → slurp w (in_dir temp_dir name) ≡ some c → is_listed name es ≡ true

    -- `NewAFSClient`, where removing a file that is there succeeds, and the temp directory, once
    -- made, can be read and lists its files: no path has a working copy any more, every cached copy
    -- is as before, and no path is dirty.
    pub new_afs_client_clears :
        (sha256 : Bytes → Bytes) (w : World)
        → Removes
        → Lists (with_dirs w)
        → (path : Bytes)
        → let k = new_afs_client sha256 w in
          (slurp k.world (get_temp_path sha256 path) ≡ none)
          × (slurp k.world (get_cache_path sha256 path) ≡ slurp w (get_cache_path sha256 path))
          × (k.dirty_files ≡ [])
    unfolding new_afs_client init_cache clean_temp_dir get_temp_path get_cache_path
    new_afs_client_clears sha256 w removes l path =
        let name = get_hashed_path sha256 path in
        let w' = with_dirs w in
        (
          rw (l.is_there, l.reads, clean_temp_dir)
              (elim (Option-cases (slurp w' (in_dir temp_dir name))) [
                | inl gone ↦ remove_entries_gone temp_dir l.es w' (in_dir temp_dir name) gone
                | inr (c, there) ↦
                    remove_entries_listed removes temp_dir l.es w' name (l.complete name c there)
              ]),
          rw (l.is_there, l.reads, clean_temp_dir)
              (remove_entries_other temp_dir l.es w' (get_cache_path sha256 path)
                  (λ n e. ground arith)
                ∙ with_dirs_quiet w (get_cache_path sha256 path)),
          refl,
        )
