-- ===== src/Response/Fields.antt =====
-- The responses that the daemon builds or changes (src/tpm2-response.c), read back by its accessors.
use tpm2_abrmd.Prelude.{
  ℕ, ◌+◌, ◌^◌, ◌≤◌, ◌<◌, ◌≡◌, refl, ◌∙◌, ◌⊎◌, inl, inr, true, false, List, some, arith, length,
  length-replicate, replicate, ltb-of_le, take, length-take, lt→ltb,
}
use native.Mathlib.Decide.{dec_lt}
use tpm2_abrmd.Bytes.{get8, get32, put32, memcpy}
use tpm2_abrmd.Bytes.Laws.{get32-put32, get8-memcpy, length-put32, length-memcpy, get8-take}
use tpm2_abrmd.Bytes.Fields.{get32-put32_ne, get16-put32_ne}
use tpm2_abrmd.Constants.{st_no_sessions, rc_success}
use tpm2_abrmd.Mu.{Mu, IsMu}
use tpm2_abrmd.Header.{get_command_tag, get_command_size, get_command_code}
use tpm2_abrmd.Header.Fields.{
  header_init_lem, write_header, length-write_header, get_tag-write_header, get_size-write_header,
  get_code-write_header, get8-write_header, get32-write_header,
}
use tpm2_abrmd.SessionEntry.{SessionEntry}
use tpm2_abrmd.SessionEntry.Context.{Holds}
use tpm2_abrmd.Response.{
  Tpm2Response, response_new, response_new_rc, response_new_context_load, response_new_context_save,
  response_get_code, response_get_size, response_get_tag, response_has_handle, response_get_handle,
  response_set_handle,
}

-- A response that only carries a response code reads back as that code, with no sessions, the size
-- of a header, which is the size of its buffer, and no handle.
pub new_rc-fields :
    (connection rc : ℕ)
    → rc < 2 ^ 32
    → let r = response_new_rc connection rc in
      (r.connection ≡ connection)
      × (response_get_code r ≡ rc)
      × (response_get_size r ≡ 10)
      × (response_get_tag r ≡ st_no_sessions)
      × (r.buffer_size ≡ 10)
      × (length r.buffer ≡ 10)
      × (response_has_handle r ≡ false)
unfolding response_new_rc response_get_code response_get_size response_get_tag response_has_handle
    get_command_code get_command_size get_command_tag write_header
new_rc-fields connection rc small =
    let z : List ℕ = replicate 10 0 in
    let size : get32 (write_header z st_no_sessions 10 rc) 2 ≡ 10 =
      get_size-write_header z st_no_sessions 10 rc (omega arith) (omega arith) in
    (
      refl,
      get_code-write_header z st_no_sessions 10 rc (omega arith) small,
      size,
      get_tag-write_header z st_no_sessions 10 rc (omega arith) (omega arith),
      size,
      length-write_header z st_no_sessions 10 rc,
      ground arith,
    )

-- A handle set in a response whose buffer has the stated size and holds a handle is read back, and
-- the tag, size and code of the response stay. In a shorter buffer nothing is changed, and the
-- handle reads as 0.
pub response_get_handle-set_handle :
    (r : Tpm2Response) (handle : ℕ)
    → r.buffer_size ≡ length r.buffer
    → handle < 2 ^ 32
    → let r' = response_set_handle r handle in
      ((14 ≤ r.buffer_size)
        × (response_get_handle r' ≡ handle)
        × (response_get_tag r' ≡ response_get_tag r)
        × (response_get_size r' ≡ response_get_size r)
        × (response_get_code r' ≡ response_get_code r))
      ⊎ ((r.buffer_size < 14) × (r' ≡ r) × (response_get_handle r' ≡ 0))
unfolding response_set_handle response_get_handle response_get_code response_get_size
    response_get_tag
response_get_handle-set_handle r handle same small = elim (dec_lt r.buffer_size 14) [
  | yes p ↦ inr (p, rw (lt→ltb _ _ p), ground arith)
  | no p ↦ rw (ltb-of_le r.buffer_size 14 (omega arith)) (
      inl (
        omega arith,
        rw (ltb-of_le r.buffer_size 14 (omega arith))
            (get32-put32 r.buffer 10 handle (omega arith) small),
        get16-put32_ne r.buffer 10 handle 0 (inl (omega arith)),
        get32-put32_ne r.buffer 10 handle 2 (inl (omega arith)),
        get32-put32_ne r.buffer 10 handle 6 (inl (omega arith)),
      ))
]

abbrev loaded_response : ℕ → ℕ → Tpm2Response
loaded_response connection handle = record {
  connection = connection;
  attributes = 0x10000161;
  buffer = write_header (put32 (replicate 14 0) 10 handle) st_no_sessions 14 rc_success;
  buffer_size = 14;
}

new_context_load_lem :
    (mu : Mu) (connection : ℕ) (entry : SessionEntry)
    → IsMu mu
    → response_new_context_load mu connection entry
      ≡ some (some (loaded_response connection entry.handle))
unfolding response_new_context_load response_new
new_context_load_lem mu connection entry is_mu = ground (
  arith,
  is_mu.uint32_fits entry.handle (replicate 14 0) 14 10 (omega arith),
  header_init_lem mu (put32 (replicate 14 0) 10 entry.handle) 14 st_no_sessions 14 rc_success is_mu
      (omega arith),
)

-- Where the marshalling functions behave as documented, the response that tells a client of a loaded
-- session is a success with a handle, and the handle is the session's.
pub response_new_context_load-fields :
    (mu : Mu) (connection : ℕ) (entry : SessionEntry)
    → IsMu mu
    → entry.handle < 2 ^ 32
    → (r : Tpm2Response) × (response_new_context_load mu connection entry ≡ some (some r))
      × (r.connection ≡ connection)
      × (response_get_code r ≡ rc_success)
      × (response_get_size r ≡ 14)
      × (length r.buffer ≡ 14)
      × (response_has_handle r ≡ true)
      × (response_get_handle r ≡ entry.handle)
unfolding response_get_code response_get_size response_has_handle response_get_handle
    get_command_code get_command_size
response_new_context_load-fields mu connection entry is_mu small =
    let body : List ℕ = put32 (replicate 14 0) 10 entry.handle in
    let long : 10 ≤ length body = omega (arith, length-put32 (replicate 14 0) 10 entry.handle) in
    let code = get_code-write_header body st_no_sessions 14 rc_success long (omega arith) in
    let size = get_size-write_header body st_no_sessions 14 rc_success long (omega arith) in
    (
      loaded_response connection entry.handle,
      new_context_load_lem mu connection entry is_mu,
      refl,
      code,
      size,
      length-write_header body st_no_sessions 14 rc_success
          ∙ length-put32 (replicate 14 0) 10 entry.handle,
      rw (size, code) refl,
      get32-write_header body st_no_sessions 14 rc_success 10 (omega arith)
          ∙ get32-put32 (replicate 14 0) 10 entry.handle (omega arith) small,
    )

abbrev saved_body : SessionEntry → List ℕ
saved_body entry =
    memcpy (replicate (10 + entry.context_client.size) 0) 10
      (take entry.context_client.size entry.context_client.buf)

abbrev saved_response : ℕ → SessionEntry → Tpm2Response
saved_response connection entry =
    let n = 10 + entry.context_client.size in
    record {
      connection = connection;
      attributes = 0x02000162;
      buffer = write_header (saved_body entry) st_no_sessions n rc_success;
      buffer_size = n;
    }

new_context_save_lem :
    (mu : Mu) (connection : ℕ) (entry : SessionEntry)
    → IsMu mu
    → response_new_context_save mu connection entry ≡ some (some (saved_response connection entry))
unfolding response_new_context_save response_new
new_context_save_lem mu connection entry is_mu =
    let n = 10 + entry.context_client.size in
    ground (
      arith,
      header_init_lem mu (saved_body entry) n st_no_sessions n rc_success is_mu (omega arith),
    )

length-saved_body :
    (entry : SessionEntry) → length (saved_body entry) ≡ 10 + entry.context_client.size
length-saved_body entry =
    length-memcpy (replicate (10 + entry.context_client.size) 0) 10
      (take entry.context_client.size entry.context_client.buf)
    ∙ length-replicate (10 + entry.context_client.size) 0

get8-saved_body :
    (entry : SessionEntry) (i : ℕ)
    → entry.context_client.size ≤ length entry.context_client.buf
    → i < entry.context_client.size
    → get8 (saved_body entry) (i + 10) ≡ get8 entry.context_client.buf i
get8-saved_body entry i fits h =
    let n = entry.context_client.size in
    let zeros : List ℕ = replicate (10 + n) 0 in
    let long : length zeros ≡ 10 + n = length-replicate {A = ℕ} (10 + n) 0 in
    let taken = length-take n entry.context_client.buf in
    get8-memcpy zeros 10 (take n entry.context_client.buf) i (i + 10) (omega arith) (omega arith)
      refl
    ∙ get8-take n entry.context_client.buf i h

-- Where the marshalling functions behave as documented, the response that hands a saved session to
-- its client is a success whose size is that of its buffer and whose body is the context kept for
-- clients, for a context whose response fits a 32-bit size.
pub response_new_context_save-fields :
    (mu : Mu) (connection : ℕ) (entry : SessionEntry) (bytes : List ℕ)
    → IsMu mu
    → Holds entry.context_client bytes
    → 10 + length bytes < 2 ^ 32
    → (r : Tpm2Response) × (response_new_context_save mu connection entry ≡ some (some r))
      × (r.connection ≡ connection)
      × (response_get_code r ≡ rc_success)
      × (response_get_size r ≡ 10 + length bytes)
      × (length r.buffer ≡ 10 + length bytes)
      × ((i : ℕ) → i < length bytes → get8 r.buffer (i + 10) ≡ get8 bytes i)
unfolding response_get_code response_get_size get_command_code get_command_size
response_new_context_save-fields mu connection entry bytes is_mu held small =
    let n = 10 + entry.context_client.size in
    let body = saved_body entry in
    let long : 10 ≤ length body = omega (arith, length-saved_body entry) in
    let same : n ≡ 10 + length bytes = omega (arith, held.used) in
    (
      saved_response connection entry,
      new_context_save_lem mu connection entry is_mu,
      refl,
      get_code-write_header body st_no_sessions n rc_success long (omega arith),
      get_size-write_header body st_no_sessions n rc_success long (omega arith) ∙ same,
      length-write_header body st_no_sessions n rc_success ∙ length-saved_body entry ∙ same,
      λ i k.
          get8-write_header body st_no_sessions n rc_success (i + 10) (omega arith)
          ∙ get8-saved_body entry i (omega (arith, held.used, held.fits)) (omega (arith, held.used))
          ∙ held.content i k,
    )
