-- ===== src/Header.antt =====
-- src/tpm2-header.c: the ten-byte header of commands and responses. As there, the getters and
-- setters assume a buffer that holds the header.
pub mod Fields
use tpm2_abrmd.Prelude.{ℕ, ◌+◌, List, Option, none, some, if◌then◌else◌, ltb, ◌==◌}
use tpm2_abrmd.Bytes.{get16, get32, put16, put32}
use tpm2_abrmd.Constants.{tpm_header_size}
use tpm2_abrmd.Mu.{Mu, Marshaled}

unfoldable pub get_command_tag : List ℕ → ℕ
get_command_tag header = get16 header 0

unfoldable pub get_command_size : List ℕ → ℕ
get_command_size header = get32 header 2

unfoldable pub get_command_code : List ℕ → ℕ
get_command_code header = get32 header 6

unfoldable pub get_response_tag : List ℕ → ℕ
get_response_tag header = get16 header 0

unfoldable pub set_response_tag : List ℕ → ℕ → List ℕ
set_response_tag header tag = put16 header 0 tag

unfoldable pub get_response_size : List ℕ → ℕ
get_response_size header = get32 header 2

unfoldable pub set_response_size : List ℕ → ℕ → List ℕ
set_response_size header size = put32 header 2 size

unfoldable pub get_response_code : List ℕ → ℕ
get_response_code header = get32 header 6

unfoldable pub set_response_code : List ℕ → ℕ → List ℕ
set_response_code header rc = put32 header 6 rc

-- The response code and the buffer; `none` is the failed assertion on the buffer's size, which
-- ends the program.
unfoldable pub header_init : Mu → List ℕ → ℕ → ℕ → ℕ → ℕ → Option (ℕ × List ℕ)
header_init mu buf buf_size tag size code =
    if ltb buf_size tpm_header_size
    then none
    else let m1 = mu.uint16 tag buf buf_size 0 in
      if m1.rc == 0
      then (let m2 = mu.uint32 size m1.buf buf_size m1.offset in
          if m2.rc == 0
          then (let m3 = mu.uint32 code m2.buf buf_size m2.offset in some (m3.rc, m3.buf))
          else some (m2.rc, m2.buf))
      else some (m1.rc, m1.buf)
