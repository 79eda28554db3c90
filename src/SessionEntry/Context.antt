-- ===== src/SessionEntry/Context.antt =====
-- The saved contexts of a session entry (src/session-entry.c): what is stored, and which entry a
-- context finds.
use tpm2_abrmd.Prelude.{
  ℕ, zero, suc, ◌≤◌, ◌<◌, ◌≡◌, ◌≢◌, refl, sym, ◌∙◌, ◌↔◌, ap, subst, ==-of_ne, leb-of_le, leb-of_lt,
  ◌⊎◌, inl, inr, List, [], ◌∷◌, none, some, Ordering, length, get_or, drop, arith,
}
use native.Mathlib.Decide.{dec_le, ℕ_discrete}
use tpm2_abrmd.Bytes.{get8, memcmp}
use tpm2_abrmd.Bytes.Laws.{get8-memcpy, length-memcpy}
use tpm2_abrmd.SessionEntry.{
  SessionEntry, SizeBuf, session_entry_set_context, session_entry_compare_on_context_client, fill,
}

get_or-drop_one : (a : List ℕ) (i : ℕ) → get_or (drop 1 a) i 0 ≡ get_or a (suc i) 0
get_or-drop_one [] i = refl
get_or-drop_one (x ∷ a) i = refl

-- memcmp finds no difference exactly when the first `n` bytes agree.
pub get8_of_memcmp :
    (n : ℕ) (a b : List ℕ) (i : ℕ) → memcmp n a b ≡ Ordering.eq → i < n → get8 a i ≡ get8 b i
unfolding memcmp get8
get8_of_memcmp zero a b i h k = absurd (omega arith)
get8_of_memcmp (suc n) a b zero h k = ground arith
get8_of_memcmp (suc n) a b (suc i) h k =
    ground
      (arith, get8_of_memcmp n (drop 1 a) (drop 1 b) i, get_or-drop_one a i, get_or-drop_one b i)

pub memcmp_of_get8 :
    (n : ℕ) (a b : List ℕ) → ((i : ℕ) → i < n → get8 a i ≡ get8 b i) → memcmp n a b ≡ Ordering.eq
unfolding memcmp get8
memcmp_of_get8 zero a b h = refl
memcmp_of_get8 (suc n) a b h = ground (
  arith,
  h 0,
  memcmp_of_get8 n (drop 1 a) (drop 1 b)
      (λ i k. get_or-drop_one a i ∙ h (suc i) (omega arith) ∙ sym (get_or-drop_one b i)),
)

-- The bytes in use of a buffer are the given ones.
pub record Holds (b : SizeBuf) (bytes : List ℕ) : Type 0 where
  pub fits : length bytes ≤ length b.buf
  pub used : b.size ≡ length bytes
  pub content : (i : ℕ) → i < length bytes → get8 b.buf i ≡ get8 bytes i

fill-Holds :
    (b : SizeBuf) (bytes : List ℕ) → length bytes ≤ length b.buf → Holds (fill b bytes) bytes
unfolding fill
fill-Holds b bytes h = record {
  fits = omega (arith, length-memcpy b.buf 0 bytes);
  used = refl;
  content = λ i k. get8-memcpy b.buf 0 bytes i i (omega arith) k (omega arith);
}

-- A context that fits the array is stored as the session's context. It also becomes the context
-- that clients see if there was none, and otherwise that one stays. One that does not fit ends the
-- program, and nothing else does.
pub set_context_lem :
    (e : SessionEntry) (bytes : List ℕ)
    → length e.context_client.buf ≡ length e.context.buf
    → ((length e.context.buf < length bytes) × (session_entry_set_context e bytes ≡ none))
      ⊎ ((e' : SessionEntry) × (session_entry_set_context e bytes ≡ some e')
          × Holds e'.context bytes
          × (e.context_client.size ≡ 0 → Holds e'.context_client bytes)
          × (e.context_client.size ≢ 0 → e'.context_client ≡ e.context_client))
unfolding session_entry_set_context
set_context_lem e bytes same = elim (dec_le (length bytes) (length e.context.buf)) [
  | no p ↦ inl (omega arith, rw (leb-of_lt (length e.context.buf) (length bytes) (omega arith)))
  | yes p ↦ inr elim (ℕ_discrete e.context_client.size 0) [
    | yes z ↦ (
      record e { context = fill e.context bytes; context_client = fill e.context_client bytes },
      rw (leb-of_le _ _ p, z),
      fill-Holds e.context bytes p,
      (λ _. fill-Holds e.context_client bytes (omega arith)),
      (λ n. absurd (n z)),
    )
    | no z ↦ (
      record e { context = fill e.context bytes },
      rw (leb-of_le _ _ p, ==-of_ne _ _ z),
      fill-Holds e.context bytes p,
      (λ n. absurd (z n)),
      (λ _. refl),
    )
  ]
]

-- Where the size is at most that of the array, comparing with a client's context finds no difference
-- exactly when the first `size` bytes of the two agree: the size in use of the stored context is
-- not compared.
pub compare_on_context_client_iff :
    (e : SessionEntry) (buf : List ℕ) (size : ℕ)
    → size ≤ length e.context_client.buf
    → (session_entry_compare_on_context_client e buf size ≡ some Ordering.eq)
      ↔ ((i : ℕ) → i < size → get8 e.context_client.buf i ≡ get8 buf i)
unfolding session_entry_compare_on_context_client
compare_on_context_client_iff e buf size h = rw (leb-of_le _ _ h) (
  (λ p i k. get8_of_memcmp size e.context_client.buf buf i (cc) k),
  (λ p. ap some (memcmp_of_get8 size e.context_client.buf buf p)),
)

-- The context that `session_entry_set_context` first stores for the clients finds the entry again.
pub compare_on_context_client-set_context :
    (e e' : SessionEntry) (bytes : List ℕ)
    → length e.context_client.buf ≡ length e.context.buf
    → e.context_client.size ≡ 0
    → session_entry_set_context e bytes ≡ some e'
    → session_entry_compare_on_context_client e' bytes (length bytes) ≡ some Ordering.eq
compare_on_context_client-set_context e e' bytes same fresh set =
    elim (set_context_lem e bytes same) [
      | inl (_, refused) ↦ cc
      | inr (x, stored, _, first, _) ↦
          let same' : x ≡ e' = cc in
          let held : Holds e'.context_client bytes =
            subst (λ (y : SessionEntry). Holds y.context_client bytes) same' (first fresh) in
          (compare_on_context_client_iff e' bytes (length bytes) held.fits).1 held.content
    ]
