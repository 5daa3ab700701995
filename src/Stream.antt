-- ===== src/Stream.antt =====
-- File contents on the wire: the loops `while (file.read(&buf[0], BUFSIZE))` of
-- `FileServerServiceImpl::Open` (unreliablefs/unreliablefs/afs_server.cc) and `AFSClient::Flush`
-- (unreliablefs/unreliablefs/afs_client.cc), and the C string that `buf.c_str()` stands for.
pub mod Join
pub mod Slices
use bnfs.Base.{
  ℕ, zero, suc, ◌+◌, List, [], ◌∷◌, Bytes, length, take, drop, leb, ◌==◌, if◌then◌else◌, ◌++◌,
}

-- `#define BUFSIZE 65500`, in both programs.
abbrev pub buf_size : ℕ
buf_size = 65500

-- The messages that the loop sends: every full buffer, then what is left at the end of the file,
-- which may be nothing. `read` fails at the first buffer that it cannot fill. The first argument
-- is fuel; a round takes `n` bytes, so that the length of the contents is enough.
unfoldable pub chunk_loop : ℕ → ℕ → Bytes → List Bytes
chunk_loop zero n contents = []
chunk_loop (suc fuel) n contents =
    let rest = chunk_loop fuel n (drop n contents) in
    if leb n (length contents) then take n contents ∷ rest else contents ∷ []

unfoldable pub chunks : ℕ → Bytes → List Bytes
unfolding chunk_loop
chunks n contents = chunk_loop (suc (length contents)) n contents

-- `buf += reply.buf ()` for each message, and `outfile << request.contents ()`.
unfoldable pub join : List Bytes → Bytes
join [] = []
join (m ∷ ms) = m ++ join ms

-- The bytes before the first NUL: what `strlen` measures.
unfoldable pub c_string : Bytes → Bytes
c_string [] = []
c_string (b ∷ bs) = if b == 0 then [] else b ∷ c_string bs
