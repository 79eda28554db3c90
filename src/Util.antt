-- ===== src/Util.antt =====
-- src/util.c: reading and writing whole buffers over a stream. A value of type int is its bit
-- pattern; `none` means that the fuel of a loop ran out.
pub mod Memory
pub mod Write
pub mod Read
pub mod Frames
pub mod Alloc
pub mod Ends
pub mod AllocEnds
pub mod Pipe
pub mod KeyValue
use tpm2_abrmd.Prelude.{
  ℕ, zero, suc, ◌+◌, ◌-◌, ◌*◌, ◌^◌, ◌||◌, List, [], ◌∷◌, ◌++◌, Option, none, some, if◌then◌else◌,
  ltb, ◌==◌, take, drop, replicate, length,
}
use tpm2_abrmd.Prelude.Int.{sub64}
use tpm2_abrmd.Bytes.{memcpy}
use tpm2_abrmd.Constants.{tpm_header_size}
use tpm2_abrmd.Header.{get_command_size}
use tpm2_abrmd.Stream.{Streams, ReadResult, bytes, read_error, WriteResult, written, write_error}

-- UTIL_BUF_MAX of src/util.h
abbrev pub util_buf_max : ℕ
util_buf_max = 8 * 1024

-- -1, which `read_data` returns at the end of the file, and EPROTO of errno.h
abbrev pub eof : ℕ
eof = 2 ^ 32 - 1

abbrev pub eproto : ℕ
eproto = 71

-- The stream, the caller's index and buffer, and the code returned.
pub record Reading (S : Type 0) : Type 0 where
  pub stream : S
  pub index : ℕ
  pub buf : List ℕ
  pub ret : ℕ

-- g_realloc: the bytes that are new have any value, here `junk`.
unfoldable pub realloc : ℕ → List ℕ → ℕ → List ℕ
realloc junk buf n = take n buf ++ replicate (n - length buf) junk

module _ {S : Type 0} where
  -- What the loop of `read_tpm_buffer_alloc` does with the outcome of a round that was given
  -- `size_tmp` bytes; `again` is the next round. NULL is `none`.
  unfoldable pub judge :
      Option (Reading S)
      → ℕ
      → (Reading S → ℕ → Option (S × Option (List ℕ × ℕ)))
      → Option (S × Option (List ℕ × ℕ))
  judge none size_tmp again = none
  judge (some r) size_tmp again =
      if r.ret == eproto
      then (let size = get_command_size r.buf in
          if ltb size tpm_header_size || ltb util_buf_max size
          then some (r.stream, none)
          else again r size)
      else if r.ret == 0
      then some (r.stream, some (r.buf, size_tmp))
      else some (r.stream, none)

module _ {S : Type 0} (st : Streams S) where
  -- The loop of `write_all` after `written_total` bytes.
  unfoldable pub write_from : ℕ → S → List ℕ → ℕ → ℕ → Option (S × WriteResult)
  write_from zero s buf size written_total = none
  write_from (suc f) s buf size written_total =
      let (s', r) = st.write s (take (size - written_total) (drop written_total buf)) in
      elim r [
        | write_error ↦ some (s', write_error)
        | written n ↦
            let rest = write_from f s' buf size (written_total + n) in
            if n == 0
            then some (s', written written_total)
            else if ltb (written_total + n) size
            then rest
            else some (s', written (written_total + n))
      ]

  unfoldable pub write_all : S → List ℕ → ℕ → Option (S × WriteResult)
  write_all s buf size = write_from (suc size) s buf size 0

  -- The loop of `read_data` with `bytes_left` bytes left.
  unfoldable pub read_from : ℕ → S → ℕ → List ℕ → ℕ → Option (Reading S)
  read_from zero s index buf bytes_left = none
  read_from (suc f) s index buf bytes_left =
      let (s', r) = st.read s bytes_left in
      elim r [
        | read_error code ↦ some (record { stream = s'; index = index; buf = buf; ret = code })
        | bytes c ↦
            let rest =
              read_from f s' (index + length c) (memcpy buf index c)
                (sub64 bytes_left (length c)) in
            if length c == 0
            then some (record { stream = s'; index = index; buf = buf; ret = eof })
            else if sub64 bytes_left (length c) == 0
            then some (record {
              stream = s';
              index = index + length c;
              buf = memcpy buf index c;
              ret = 0;
            })
            else rest
      ]

  unfoldable pub read_data : S → ℕ → List ℕ → ℕ → Option (Reading S)
  read_data s index buf count = read_from (suc count) s index buf count

  -- `read_tpm_buffer` from where the buffer holds the header.
  unfoldable pub read_body : Reading S → ℕ → Option (Reading S)
  read_body r buf_size =
      let size = get_command_size r.buf in
      if size == tpm_header_size
      then some r
      else if ltb buf_size size
      then some (record r { ret = eproto })
      else read_data r.stream r.index r.buf (sub64 size r.index)

  -- The header's bytes have been read, or an error is passed on.
  unfoldable pub after_header : Option (Reading S) → ℕ → Option (Reading S)
  after_header none buf_size = none
  after_header (some r) buf_size = if r.ret == 0 then read_body r buf_size else some r

  unfoldable pub read_tpm_buffer : S → ℕ → List ℕ → ℕ → Option (Reading S)
  read_tpm_buffer s index buf buf_size =
      let r : Reading S = record { stream = s; index = index; buf = buf; ret = 0 } in
      if ltb buf_size tpm_header_size
      then some (record r { ret = eproto })
      else if ltb index tpm_header_size
      then after_header (read_data s index buf (tpm_header_size - index)) buf_size
      else read_body r buf_size

  unfoldable pub alloc_from : ℕ → ℕ → S → ℕ → List ℕ → ℕ → Option (S × Option (List ℕ × ℕ))
  alloc_from junk zero s index buf size_tmp = none
  alloc_from junk (suc f) s index buf size_tmp =
      judge (read_tpm_buffer s index (realloc junk buf size_tmp) size_tmp) size_tmp
        λ r size. alloc_from junk f r.stream r.index r.buf size

  -- The buffer with its size, or NULL. A stream that delivers takes two rounds; one
  -- that fails halfway through the header can take a round for each of its bytes.
  unfoldable pub read_tpm_buffer_alloc : ℕ → S → Option (S × Option (List ℕ × ℕ))
  read_tpm_buffer_alloc junk s = alloc_from junk 12 s 0 [] tpm_header_size
