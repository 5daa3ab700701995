-- ===== src/Mounted/Fleet/Contents.antt =====
-- Where the contents come from that the clients of unreliablefs/unreliablefs/afs_client.cc find on
-- their server.
use bnfs.Base.{
  ℕ, zero, suc, some, List, [], ◌∷◌, Bytes, map, take, ◌≡◌, ◌⊎◌, inl, inr, refl, ap, subst, ◌∙◌,
  pos, sym, arith, ◌<◌,
}
use bnfs.Hash.{get_temp_path}
use bnfs.Stream.{join, chunks, buf_size}
use bnfs.Posix.{Posix, close, dup, int_of}
use bnfs.Posix.Laws.{IsLawful}
use bnfs.Server.{contents_of}
use bnfs.Server.Lock.{
  Request, put_req, mkdir_req, access_req, rmdir_req, unlink_req, rename_req, open_req,
}
use bnfs.Server.Origin.{Brings, Known, serve-Known, IsPart}
use bnfs.AfsClient.{upload}
use bnfs.Cache.{Client, did, answer}
use bnfs.Ops.{Env, Mount}
use bnfs.Mounted.{Step, operation, polled, requested}
use bnfs.Mounted.Requests.{FromCopy}
use bnfs.Mounted.Reachable.{Sent, Step-Served}
use bnfs.Mounted.Fleet.{Fleet, FleetReach, start, later, acts}
use bnfs.Stream.Join.{join-take, join-chunks}

take-take {ℓ} : {A : Type ℓ} (a b : ℕ) (xs : List A) → (n : ℕ) × (take a (take b xs) ≡ take n xs)
take-take zero b xs = (0, refl)
take-take (suc a) zero xs = (0, refl)
take-take (suc a) (suc b) [] = (0, refl)
take-take (suc a) (suc b) (x ∷ xs) = let (n, e) = take-take a b xs in (suc n, ap (◌∷◌ x) e)

-- The pieces in the messages behind the first.
pieces :
    (path : Bytes) (n : ℕ) (bs : List Bytes)
    → contents_of (take n (map (λ b. record { path = path; contents = b }) bs)) ≡ take n bs
pieces path zero bs = refl
pieces path (suc n) [] = refl
pieces path (suc n) (b ∷ bs) = ap (◌∷◌ b) (pieces path n bs)

has_room : 0 < buf_size
has_room = omega arith

-- What the first messages of an upload bring is a leading part of the file.
first_pieces :
    (draws : ℕ → ℕ) (path contents d : Bytes) (a b : ℕ)
    → Brings (put_req draws (take a (take b (upload path contents)))) d
    → (n : ℕ) × (d ≡ take n contents)
first_pieces draws path contents d zero b brings = absurd brings
first_pieces draws path contents d (suc a) zero brings = absurd brings
first_pieces draws path contents d (suc a) (suc b) brings =
    let (n, e) =
      take-take a b (map (λ b. record { path = path; contents = b }) (chunks buf_size contents)) in
    let (k, f) = join-take n (chunks buf_size contents) in
    let (m, part) = brings in
    let sent =
      ap join (ap contents_of e ∙ pieces path n (chunks buf_size contents))
      ∙ (f ∙ ap (take k) (join-chunks buf_size contents has_room)) in
    let (i, g) = take-take m k contents in (i, part ∙ (ap (take m) sent ∙ g))

module _ {P : Posix} (L : IsLawful P) (Q : Posix) (sha256 : Bytes → Bytes) where
  -- A leading part, which may be all, of what a working copy holds.
  abbrev pub OfCopy : Client P sha256 → Bytes → Type 0
  OfCopy k d =
      (path : Bytes) × (contents : Bytes) × (P.slurp k.world (get_temp_path sha256 path)
        ≡ some contents)
      × IsPart d contents

  sent-OfCopy :
      (k : Client P sha256) (x : Request) (d : Bytes)
      → FromCopy P Q sha256 k x
      → Brings x d
      → OfCopy k d
  sent-OfCopy k (put_req draws messages) d (path, contents, fh, a, b, there, e) brings =
      let (n, first) =
        first_pieces draws path contents d a b (subst (λ y. Brings (put_req draws y) d) e brings) in
      let copy = dup (pos fh) in
      let copied = did P sha256 copy k in
      let temp = get_temp_path sha256 path in
      (
        path,
        contents,
        sym (
              L.slurp_quiet (close (int_of (answer P sha256 copy k))) copied.world temp refl
              ∙ L.slurp_quiet copy k.world temp refl)
            ∙ there,
        (n, first),
      )
  sent-OfCopy k (mkdir_req path mode) d sent brings = absurd brings
  sent-OfCopy k (access_req path mode) d sent brings = absurd brings
  sent-OfCopy k (rmdir_req path) d sent brings = absurd brings
  sent-OfCopy k (unlink_req path) d sent brings = absurd brings
  sent-OfCopy k (rename_req old_path new_path) d sent brings = absurd brings
  sent-OfCopy k (open_req request) d sent brings = absurd brings

module _ {E : Env} (L : IsLawful E.client_os) (M : IsLawful E.server_os) where
  open E use {client_os, server_os, sha256}

  -- Contents that a step may bring to the server: of a client, a leading part of a working copy;
  -- or what a request from outside brings.
  abbrev pub BroughtBy : {m m' : Mount E} → Step E m m' → Bytes → Type 0
  BroughtBy {m} (operation call c code out effects h e) d = OfCopy L server_os sha256 m.client d
  BroughtBy (polled e) d = ⊥
  BroughtBy (requested r e) d = Brings r d

  -- Contents that a step of the run brings.
  abbrev pub Brought : {f g : Fleet E} → FleetReach E f g → Bytes → Type 0
  Brought start d = ⊥
  Brought (later r (acts i s e)) d = Brought r d ⊎ BroughtBy s d

  Step-BroughtBy :
      {m m' : Mount E} (s : Step E m m') (x : Request) (d : Bytes)
      → Sent s x
      → Brings x d
      → BroughtBy s d
  Step-BroughtBy {m} (operation call c code out effects h e) x d sent brings =
      sent-OfCopy L server_os sha256 m.client x d sent brings
  Step-BroughtBy (polled e) x d sent brings = absurd sent
  Step-BroughtBy (requested r e) x d sent brings = subst (λ y. Brings y d) sent brings

  -- Whatever several clients of one server do, and whatever requests come from outside: what is
  -- found on the server at any path is empty, or was found there at some path at first, or is what
  -- a step of the run brought: of a client, a leading part (which may be all) of one working copy
  -- that it had before the step, and of a request from outside, a leading part of what its upload
  -- carried. No disk needs to have room: a write may stop anywhere.
  pub fleet_contents :
      {f g : Fleet E} (r : FleetReach E f g) (q d : Bytes)
      → server_os.slurp g.server.world q ≡ some d
      → Known M f.server.world d ⊎ Brought r d
  fleet_contents start q d e = inl (inr (q, e))
  fleet_contents (later {g} r (acts i s eq)) q d e =
      let (rs, all, served) = Step-Served s in
      elim (serve-Known M (Sent s) rs g.server q d all
        (subst (λ x. server_os.slurp x.world q ≡ some d) (ap (λ x. x.server) eq ∙ served) e)) [
          | inr (x, sent, brings) ↦ inr (inr (Step-BroughtBy s x d sent brings))
          | inl (inl empty) ↦ inl (inl empty)
          | inl (inr (p, there)) ↦ elim (fleet_contents r p d there) [
            | inl known ↦ inl known
            | inr brought ↦ inr (inl brought)
          ]
        ]
