-- ===== src/Stream.antt =====
-- GInputStream and GOutputStream of GIO, over which a client and the daemon talk. The library is not
-- part of the repository: its functions are parameters, and the records below say what its
-- documentation promises of them.
use tpm2_abrmd.Prelude.{ℕ, ◌≤◌, ◌<◌, ◌^◌, ◌≡◌, List, ◌++◌, length, take, drop}

-- The result of a read: the bytes, none at the end of the file, or the code of a GError.
pub data ReadResult : Type 0 where
  bytes : List ℕ → ReadResult
  read_error : ℕ → ReadResult

-- The result of a write: the count of bytes written, or -1.
pub data WriteResult : Type 0 where
  written : ℕ → WriteResult
  write_error : WriteResult

-- g_input_stream_read of at most a count of bytes, and g_output_stream_write of some bytes.
pub record Streams (S : Type 0) : Type 0 where
  pub read : S → ℕ → S × ReadResult
  pub write : S → List ℕ → S × WriteResult

abbrev pub length_of : ReadResult → ℕ
length_of (bytes c) = length c
length_of (read_error code) = 0

-- A read that is asked for `n` bytes hands over the first `k` of those that are on their way: at
-- least one, and no more than `n`.
pub record Prefix {S : Type 0} (queue : S → List ℕ) (s : S) (n : ℕ) (r : S × ReadResult)
    : Type 0 where
  pub k : ℕ
  pub some_byte : 0 < k
  pub within : k ≤ n
  pub there : k ≤ length (queue s)
  pub result : r.1 ≡ bytes (take k (queue s))
  pub rest : queue r.0 ≡ drop k (queue s)

-- A write of `buf` appends its first `k` bytes.
pub record Suffix {S : Type 0} (queue : S → List ℕ) (s : S) (buf : List ℕ) (r : S × WriteResult)
    : Type 0 where
  pub k : ℕ
  pub some_byte : 0 < k
  pub within : k ≤ length buf
  pub result : r.1 ≡ written k
  pub appended : queue r.0 ≡ queue s ++ take k buf

module _ {S : Type 0} (st : Streams S) where
  -- Data arrive in order and unharmed, in pieces of any size. `queue` are the bytes on their way. No
  -- more than G_MAXSSIZE bytes are asked for.
  pub record IsReader (queue : S → List ℕ) : Type 0 where
    pub reads :
        (s : S) (n : ℕ) → 0 < n → n < 2 ^ 63 → 0 < length (queue s) → Prefix queue s n (st.read s n)

  pub record IsWriter (queue : S → List ℕ) : Type 0 where
    pub writes : (s : S) (buf : List ℕ) → 0 < length buf → Suffix queue s buf (st.write s buf)

  -- What holds of every stream, also of one that fails: a read returns no more bytes than it is
  -- asked for, and a write counts no more bytes than it is given.
  pub record IsBounded : Type 0 where
    pub read_within : (s : S) (n : ℕ) → length_of (st.read s n).1 ≤ n

  -- A read of more than G_MAXSSIZE bytes is refused with an error.
  pub record RefusesHuge : Type 0 where
    pub refuses : (s : S) (n : ℕ) → 2 ^ 63 ≤ n → (code : ℕ) × ((st.read s n).1 ≡ read_error code)

  -- The codes of a GError of the domain G_IO_ERROR stay below EPROTO.
  pub record HasIoErrors : Type 0 where
    pub small : (s : S) (n code : ℕ) → (st.read s n).1 ≡ read_error code → code < 71
