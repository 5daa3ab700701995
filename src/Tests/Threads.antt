-- ===== src/Tests/Threads.antt =====
-- An example of uploads that run at once.
use bnfs.Base.{
  ℕ, true, false, none, some, List, [], ◌∷◌, Bytes, ◌≡◌, ◌⊎◌, refl, arith, same, ◌≤◌, pos, subst,
  sym, ◌∙◌, ◌==◌, if◌then◌else◌,
}
use bnfs.Posix.Memory.{memory, empty_disk, Disk}
use bnfs.Posix.Memory.Lawful.{memory-IsLawful}
use bnfs.Server.{PutFileReq, get_server_path, put_file, cancelled, no_put_resp}
use bnfs.Server.Put.{temp_file_path-ne}
use bnfs.Server.Threads.{Job, job_of, Place, waiting, is_critical, Threads, run, done, holding}
use bnfs.Server.Exclusion.{Excludes, run-Excludes}
use bnfs.Server.Whole.{CanWrite, fresh, is_past, uploads_atomic}
use bnfs.Server.Alone.{turns}
use bnfs.Tests.Scene.{path, disk_with, text, digest, client_with}
use bnfs.Server.Release.{mutex_comes_free}
use bnfs.Posix.{o_rdonly}
use bnfs.Stream.{chunks, buf_size}
use bnfs.Wire.{Download}
use bnfs.AfsClient.{fetch_and_sync_server_file}
use bnfs.AfsClient.During.{server_at, Receives, BothHave, fetch_during_uploads}
use mathlib.Core.Option.{some-injective}

-- Thread `i` uploads the byte `i`, all to one path.
abbrev request : Bytes → PutFileReq
request b = record { path = path; contents = b }

abbrev jobs : ℕ → Job
jobs i = job_of (λ n. i) (request []) (request (i ∷ []) ∷ [])

abbrev start : Threads memory
start = fresh memory-IsLawful jobs empty_disk

-- The second thread comes to the lock while the first holds it, and again when it is free.
abbrev schedule : List ℕ
schedule = 1 ∷ 1 ∷ 2 ∷ 1 ∷ 1 ∷ 1 ∷ 2 ∷ 2 ∷ 1 ∷ 2 ∷ []

start-Excludes : Excludes memory start
unfolding is_critical
start-Excludes = record { one = λ i j a b. ground (arith, a); held = λ i a. ground (arith, a) }

run-Excludes_example : Excludes memory (run memory jobs schedule start)
run-Excludes_example = run-Excludes memory jobs schedule start start-Excludes

jobs-CanWrite : (i : ℕ) → CanWrite memory-IsLawful (jobs i)
jobs-CanWrite i w = (0, refl)

uploads_atomic_example :
    let t = run memory jobs schedule start in
    (memory.slurp t.world (get_server_path path) ≡ none)
    ⊎ ((i : ℕ) × ((jobs i).target ≡ get_server_path path)
        × (memory.slurp t.world (get_server_path path) ≡ some (jobs i).contents)
        × (is_past (t.places i) ≡ true))
unfolding job_of
uploads_atomic_example =
    uploads_atomic memory-IsLawful jobs empty_disk schedule (get_server_path path) jobs-CanWrite
      (λ i. temp_file_path-ne (λ n. i) path)

-- The second thread renames last.
interleaved :
    memory.slurp (run memory jobs schedule start).world (get_server_path path) ≡ some (2 ∷ [])
unfolding run bnfs.Server.Threads.turn bnfs.Server.Threads.advance same job_of
    bnfs.Server.temp_file_path get_server_path bnfs.Stream.join
interleaved = refl

-- Thread 2 serves a client that stops sending; the others end.
abbrev uneven : ℕ → Job
uneven i = record (jobs i) { ends = if i == 2 then false else true }

mutex_comes_free_example :
    let t = run memory uneven (1 ∷ 1 ∷ 2 ∷ []) start in
    (k : ℕ) × (((t.places k ≡ holding) × ((uneven k).ends ≡ false))
      ⊎ ((n : ℕ) × (n ≤ 4)
          × (let u = run memory uneven (turns n k) t in
              (u.locked ≡ false) ⊎ (u.places k ≡ done cancelled no_put_resp))))
unfolding run bnfs.Server.Threads.turn bnfs.Server.Threads.advance job_of
mutex_comes_free_example = mutex_comes_free memory uneven (1 ∷ 1 ∷ 2 ∷ []) start refl refl

-- Once the thread 2 has the mutex, no turns of the others or of its own free it.
stalled : (run memory uneven (2 ∷ 1 ∷ 2 ∷ 2 ∷ 1 ∷ 1 ∷ 2 ∷ 2 ∷ []) start).locked ≡ true
unfolding run bnfs.Server.Threads.turn bnfs.Server.Threads.advance job_of
stalled = refl

abbrev old_disk : Disk
old_disk = disk_with (get_server_path path) text

abbrev whole_link : Download
whole_link = record { reached = true; arrived = 9; finished = true }

old_is_gone :
    memory.slurp
      (server_at memory memory-IsLawful digest jobs old_disk schedule).world
      (get_server_path path)
    ≡ some (2 ∷ [])
unfolding run bnfs.Server.Threads.turn bnfs.Server.Threads.advance same job_of
    bnfs.Server.temp_file_path get_server_path bnfs.Stream.join
old_is_gone = refl

two-Receives :
    Receives memory memory-IsLawful digest jobs whole_link path (2 ∷ []) (client_with text)
unfolding chunks
two-Receives = record {
  whole = record { reached = refl; arrived = omega arith; finished = refl };
  first = 0;
  caches = refl;
  second = 0;
  writes = refl;
}

fetch_during_uploads_example :
    let s = server_at memory memory-IsLawful digest jobs old_disk schedule in
    let r =
      fetch_and_sync_server_file memory memory digest whole_link path o_rdonly
        (client_with text)
        s in
    (r.0 ≡ pos 0)
    × (r.2 ≡ s)
    × ((contents : Bytes) × BothHave memory memory-IsLawful digest jobs path contents
          (client_with text).world
          r.1.world
        × ((contents ≡ text)
            ⊎ ((i : ℕ) × ((jobs i).target ≡ get_server_path path)
                × (contents ≡ (jobs i).contents)
                × (is_past
                      ((run memory jobs schedule (fresh memory-IsLawful jobs old_disk)).places i)
                    ≡ true))))
unfolding job_of same get_server_path
fetch_during_uploads_example =
    fetch_during_uploads memory memory-IsLawful digest jobs memory-IsLawful old_disk schedule
      whole_link path text o_rdonly (client_with text) jobs-CanWrite
      (λ i. temp_file_path-ne (λ n. i) path) refl
      (λ contents now.
        subst
          (λ c. Receives memory memory-IsLawful digest jobs whole_link path c (client_with text))
          (some-injective (2 ∷ []) contents (sym old_is_gone ∙ now)) two-Receives)
