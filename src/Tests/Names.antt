-- ===== src/Tests/Names.antt =====
-- Examples of names, chunks and dirty files.
use bnfs.Base.{[], ◌∷◌, codes, same, ◌≡◌, ◌||◌, ◌&&◌, refl, arith, ◌*◌, get_elem?, Bytes, ◌↔◌, ◌≢◌}
use bnfs.Stream.{chunks, chunk_loop}
use bnfs.Hash.{hex, get_temp_path, get_cache_path, hex_byte}
use bnfs.Hash.Paths.{copies_shared_iff}
use bnfs.Posix.Memory.{memory}
use bnfs.Cache.{is_file_dirty, mark_file_dirty}
use bnfs.AfsClient.Files.{rename_local}
use bnfs.AfsClient.Rename.{is_file_dirty-rename_local}
use bnfs.Tests.Scene.{dirty_client, digest, digest-IsDigest, path, other_path, text}
use bnfs.Stream.Slices.{slice, chunks-slice}

-- Two full messages and a short one.
two_by_two : chunks 2 text ≡ codes "he" ∷ codes "ll" ∷ codes "o" ∷ []
unfolding chunks chunk_loop
two_by_two = refl

-- A file that fills its messages ends with an empty one.
filled : chunks 5 text ≡ text ∷ [] ∷ []
unfolding chunks chunk_loop
filled = refl

hex_of_two : hex (10 ∷ 255 ∷ []) ≡ codes "0aff"
unfolding hex hex_byte
hex_of_two = refl

-- Under a digest of one byte, all files share their copies.
one_byte : Bytes → Bytes
one_byte p = 7 ∷ []

copies_shared_iff_example :
    ((get_temp_path one_byte path ≡ get_temp_path one_byte other_path)
      ↔ (one_byte path ≡ one_byte other_path))
    × ((get_cache_path one_byte path ≡ get_cache_path one_byte other_path)
        ↔ (one_byte path ≡ one_byte other_path))
    × (get_temp_path one_byte path ≢ get_cache_path one_byte other_path)
unfolding one_byte
copies_shared_iff_example =
    copies_shared_iff one_byte path other_path ((omega arith, tt), (omega arith, tt))

shared : get_temp_path one_byte path ≡ get_temp_path one_byte other_path
unfolding one_byte
shared = copies_shared_iff_example.0.1 refl

is_file_dirty-rename_local_example :
    is_file_dirty memory digest path
      (rename_local memory memory digest 3 path other_path dirty_client).1
    ≡ (is_file_dirty memory digest path dirty_client
        || (is_file_dirty memory digest path dirty_client && same other_path path))
unfolding mark_file_dirty get_temp_path hex hex_byte digest same
is_file_dirty-rename_local_example =
    is_file_dirty-rename_local memory memory digest-IsDigest 3 path other_path path dirty_client 0
      refl

chunks-slice_example : get_elem? (chunks 2 text) 2 ≡ slice 2 (2 * 2) text
chunks-slice_example = chunks-slice 2 text 2 (omega arith)
