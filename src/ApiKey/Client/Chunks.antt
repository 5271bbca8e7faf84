-- ===== src/ApiKey/Client/Chunks.antt =====
-- The bounded body: fastapi_m8/_api_key.py, the loop of `_transmit`.
use fastapi_m.Base.{
  ℕ, ◌≤◌, ◌≡◌, none, some, List, [], ◌∷◌, ◌++◌, arith, leb, if◌then◌else◌, length, length-append,
}
use mathlib.Core.List.{append-nil, append_assoc}
use fastapi_m.ApiKey.Client.{read_chunks}

-- the whole body
abbrev pub joined : List (List ℕ) → List ℕ
joined [] = []
joined (chunk ∷ rest) = chunk ++ joined rest

read_chunks_from :
    (most : ℕ) (payload : List ℕ) (chunks : List (List ℕ))
    → length payload ≤ most
    → read_chunks most payload chunks ≡ (
        if leb (length (payload ++ joined chunks)) most
        then some (payload ++ joined chunks)
        else none)
unfolding read_chunks
read_chunks_from most payload [] h = rw (append-nil payload) (ground arith)
read_chunks_from most payload (chunk ∷ rest) h = rw (← append_assoc payload chunk (joined rest)) (
    ground (
      arith,
      read_chunks_from most (payload ++ chunk) rest,
      length-append (payload ++ chunk) (joined rest),
    ))

-- The body is read whole, and is the chunks joined, exactly if it is no longer than the bound; a
-- longer one is abandoned.
pub read_chunks_lem :
    (most : ℕ) (chunks : List (List ℕ))
    → read_chunks most [] chunks
      ≡ (if leb (length (joined chunks)) most then some (joined chunks) else none)
read_chunks_lem most chunks = read_chunks_from most [] chunks (omega arith)
