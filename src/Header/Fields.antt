-- ===== src/Header/Fields.antt =====
-- The header functions of src/tpm2-header.c, written and read back.
use tpm2_abrmd.Prelude.{ℕ, ◌≤◌, ◌<◌, ◌^◌, ◌≡◌, ◌∙◌, List, inl, inr, some, length, arith}
use tpm2_abrmd.Bytes.{get8, get32, put16, put32}
use tpm2_abrmd.Bytes.Laws.{length-put16, length-put32, get16-put16, get32-put32}
use tpm2_abrmd.Bytes.Fields.{
  get8-put16_ne, get8-put32_ne, get16-put32_ne, get32-put16_ne, get32-put32_ne,
}
use tpm2_abrmd.Mu.{Mu, IsMu}
use tpm2_abrmd.Header.{
  get_command_tag, get_command_size, get_command_code, get_response_tag, get_response_size,
  get_response_code, set_response_tag, set_response_size, set_response_code, header_init,
}

-- The buffer that the three writes leave.
unfoldable pub write_header : List ℕ → ℕ → ℕ → ℕ → List ℕ
write_header buf tag size code = put32 (put32 (put16 buf 0 tag) 2 size) 6 code

pub header_init_lem :
    (mu : Mu) (buf : List ℕ) (buf_size tag size code : ℕ)
    → IsMu mu
    → 10 ≤ buf_size
    → header_init mu buf buf_size tag size code ≡ some (0, write_header buf tag size code)
unfolding header_init write_header
header_init_lem mu buf n tag size code is_mu h = ground (
  arith,
  is_mu.uint16_fits tag buf n 0 (omega arith),
  is_mu.uint32_fits size (put16 buf 0 tag) n 2 (omega arith),
  is_mu.uint32_fits code (put32 (put16 buf 0 tag) 2 size) n 6 (omega arith),
)

module _ (buf : List ℕ) (tag size code : ℕ) where
  pub length-write_header : length (write_header buf tag size code) ≡ length buf
  unfolding write_header
  length-write_header =
      length-put32 (put32 (put16 buf 0 tag) 2 size) 6 code
      ∙ length-put32 (put16 buf 0 tag) 2 size
      ∙ length-put16 buf 0 tag

  pub get8-write_header : (j : ℕ) → 10 ≤ j → get8 (write_header buf tag size code) j ≡ get8 buf j
  unfolding write_header
  get8-write_header j h =
      get8-put32_ne (put32 (put16 buf 0 tag) 2 size) 6 code j (inr h)
      ∙ get8-put32_ne (put16 buf 0 tag) 2 size j (inr (omega arith))
      ∙ get8-put16_ne buf 0 tag j (inr (omega arith))

  pub get32-write_header : (j : ℕ) → 10 ≤ j → get32 (write_header buf tag size code) j ≡ get32 buf j
  unfolding write_header
  get32-write_header j h =
      get32-put32_ne (put32 (put16 buf 0 tag) 2 size) 6 code j (inr h)
      ∙ get32-put32_ne (put16 buf 0 tag) 2 size j (inr (omega arith))
      ∙ get32-put16_ne buf 0 tag j (inr (omega arith))

  pub get_tag-write_header :
      10 ≤ length buf → tag < 2 ^ 16 → get_command_tag (write_header buf tag size code) ≡ tag
  unfolding write_header get_command_tag
  get_tag-write_header h k =
      get16-put32_ne (put32 (put16 buf 0 tag) 2 size) 6 code 0 (inl (omega arith))
      ∙ get16-put32_ne (put16 buf 0 tag) 2 size 0 (inl (omega arith))
      ∙ get16-put16 buf 0 tag (omega arith) k

  pub get_size-write_header :
      10 ≤ length buf → size < 2 ^ 32 → get_command_size (write_header buf tag size code) ≡ size
  unfolding write_header get_command_size
  get_size-write_header h k =
      get32-put32_ne (put32 (put16 buf 0 tag) 2 size) 6 code 2 (inl (omega arith))
      ∙ get32-put32 (put16 buf 0 tag) 2 size (omega (arith, length-put16 buf 0 tag)) k

  pub get_code-write_header :
      10 ≤ length buf → code < 2 ^ 32 → get_command_code (write_header buf tag size code) ≡ code
  unfolding write_header get_command_code
  get_code-write_header h k =
      get32-put32 (put32 (put16 buf 0 tag) 2 size) 6 code
        (omega (arith, length-put32 (put16 buf 0 tag) 2 size, length-put16 buf 0 tag)) k

-- Where the marshalling functions behave as documented, `tpm2_header_init` succeeds on every buffer
-- of at least ten bytes: the tag, the size and the code are read back as they were given, the
-- buffer keeps its length, and the bytes behind the header are left as they were.
pub header_init-fields :
    (mu : Mu) (buf : List ℕ) (tag size code : ℕ)
    → IsMu mu
    → 10 ≤ length buf
    → tag < 2 ^ 16
    → size < 2 ^ 32
    → code < 2 ^ 32
    → (b : List ℕ) × (header_init mu buf (length buf) tag size code ≡ some (0, b))
      × (get_command_tag b ≡ tag)
      × (get_command_size b ≡ size)
      × (get_command_code b ≡ code)
      × (length b ≡ length buf)
      × ((j : ℕ) → 10 ≤ j → get8 b j ≡ get8 buf j)
header_init-fields mu buf tag size code is_mu h ht hs hc = (
  write_header buf tag size code,
  header_init_lem mu buf (length buf) tag size code is_mu h,
  get_tag-write_header buf tag size code h ht,
  get_size-write_header buf tag size code h hs,
  get_code-write_header buf tag size code h hc,
  length-write_header buf tag size code,
  get8-write_header buf tag size code,
)

-- A tag, a size and a code set by the three setters of a response header, in a buffer of at least ten
-- bytes, are read back by the getters.
pub set_response-get_response :
    (buf : List ℕ) (tag size rc : ℕ)
    → 10 ≤ length buf
    → tag < 2 ^ 16
    → size < 2 ^ 32
    → rc < 2 ^ 32
    → let b = set_response_code (set_response_size (set_response_tag buf tag) size) rc in
      (get_response_tag b ≡ tag) × (get_response_size b ≡ size) × (get_response_code b ≡ rc)
unfolding set_response_code set_response_size set_response_tag get_response_tag get_response_size
    get_response_code get_command_tag get_command_size get_command_code write_header
set_response-get_response buf tag size rc h ht hs hc = (
  get_tag-write_header buf tag size rc h ht,
  get_size-write_header buf tag size rc h hs,
  get_code-write_header buf tag size rc h hc,
)
