-- ===== src/Tcti/Wedge.antt =====
-- What a malformed response leaves in the context of src/tcti-tabrmd.c: `receive` does not reset the
-- index, so the next response is read with the header of the malformed one.
use tpm2_abrmd.Prelude.{
  ℕ, ◌^◌, ◌<◌, ◌≤◌, ◌≡◌, ◌≢◌, refl, sym, ◌∙◌, subst, List, Option, none, some, arith,
}
use native.Mathlib.Decide.{ℕ_discrete}
use tpm2_abrmd.Prelude.Int.{ℤ, sub64}
use tpm2_abrmd.Constants.TctiRc
use tpm2_abrmd.Constants.{rc_success}
use tpm2_abrmd.Stream.{RefusesHuge}
use tpm2_abrmd.Tcti.{
  TabrmdContext, ClientEnv, Received, ReadInto, errno_to_tcti_rc, gerror_code_to_tcti_rc,
}
use tpm2_abrmd.Tcti.Receive.{
  read_into, polled, tcti_read, finish_read, refuse, receive_guard, receive_body, tcti_receive,
  tcti_poll, with_header,
}
use tpm2_abrmd.Tcti.States.{tcti_read_rc, receive_guard_rc, refused}

-- The header of a malformed response is in the context, and the index behind it.
pub record IsWedged (c : TabrmdContext) : Type 0 where
  pub behind : c.index ≡ 10
  pub short : c.header.size < 10

gerror-ne_success : (code : ℕ) → gerror_code_to_tcti_rc code ≢ rc_success
unfolding gerror_code_to_tcti_rc
gerror-ne_success code e = ground arith

errno-ne_success : (code : ℕ) → code ≢ 0 → errno_to_tcti_rc code ≢ rc_success
unfolding errno_to_tcti_rc
errno-ne_success code h e = ground arith

module _ {S : Type 0} (env : ClientEnv S) (huge : RefusesHuge env.streams) (c : TabrmdContext)
    (buf : List ℕ) (n : ℕ) (big : 2 ^ 63 ≤ n) where
  read_into_huge :
      (s : S)
      → ((read_into c buf n (env.streams.read s n)).context ≡ c)
        × ((read_into c buf n (env.streams.read s n)).rc ≢ rc_success)
  unfolding read_into
  read_into_huge s =
      let (code, e) = huge.refuses s n big in
      (rw (e, read_into) refl, rw (e, read_into) (gerror-ne_success code))

  polled_huge :
      (s : S) (ret : ℕ)
      → ((polled env c s ret buf n).context ≡ c) × ((polled env c s ret buf n).rc ≢ rc_success)
  unfolding polled
  polled_huge s ret = (
    ground (arith, (read_into_huge s).0),
    λ e. ground (arith, (read_into_huge s).1, errno-ne_success ret),
  )

-- The stale size is less than the index, so what is left to read wraps around.
wraps : (size : ℕ) → size < 10 → 2 ^ 63 ≤ sub64 size 10
wraps size h = omega arith

finish_read_fails :
    {S : Type 0} (size : ℕ) (r : ReadInto S)
    → r.rc ≢ rc_success
    → finish_read size r ≡ refuse r.context r.stream size (some r.buf) r.rc
unfolding finish_read refuse
finish_read_fails size r h = ground arith

-- A receive in that context: it leaves the context, and takes no response.
pub record Fruitless {S : Type 0} (c : TabrmdContext) (o : Received S) (taken : Type 0)
    : Type 0 where
  pub same : o.context ≡ c
  pub fails : taken → o.rc ≢ rc_success
  pub not_malformed : o.rc ≢ TctiRc.malformed_response

fruitless_by :
    {S : Type 0} {c : TabrmdContext} {T : Type 0} (o o' : Received S)
    → o ≡ o'
    → Fruitless c o' T
    → Fruitless c o T
fruitless_by {c = c} {T = T} o o' e f = subst (λ x. Fruitless c x T) (sym e) f

abbrev pub HasBuffer : Option (List ℕ) → Type 0
HasBuffer none = ⊥
HasBuffer (some buf) = Unit {0}

guard_size :
    (c : TabrmdContext) (size : ℕ) (response : Option (List ℕ)) (t : ℤ)
    → receive_guard c size response t ≡ rc_success
    → HasBuffer response
    → 10 ≤ size
unfolding receive_guard
guard_size c size none t e k = absurd k
guard_size c size (some buf) t e k = ground arith

module _ {S : Type 0} (env : ClientEnv S) (huge : RefusesHuge env.streams) (c : TabrmdContext)
    (w : IsWedged c) (size : ℕ) (t : ℤ) where
  read_fails :
      (s : S) (buf : List ℕ)
      → ((tcti_read env c s buf (sub64 c.header.size c.index) t).context ≡ c)
        × ((tcti_read env c s buf (sub64 c.header.size c.index) t).rc ≢ rc_success)
  unfolding tcti_read
  read_fails s buf =
      polled_huge env huge c buf (sub64 c.header.size c.index)
        (subst (λ i. 2 ^ 63 ≤ sub64 c.header.size i) (sym w.behind) (wraps c.header.size w.short))
        (env.poll s t).0 (tcti_poll (env.poll s t).1)

  to_read :
      (s : S) (buf : List ℕ)
      → 10 ≤ size
      → receive_body env c s size (some buf) t
        ≡ finish_read size (tcti_read env c s (with_header c buf) (sub64 c.header.size c.index) t)
  unfolding receive_body
  to_read s buf h = ground (arith, w.behind, w.short)

  to_body :
      (s : S) (response : Option (List ℕ))
      → receive_guard c size response t ≡ rc_success
      → tcti_receive env c s size response t ≡ receive_body env c s size response t
  unfolding tcti_receive
  to_body s response ok = ground (arith, ok, w.behind)

  body_Fruitless :
      (s : S) (response : Option (List ℕ))
      → (HasBuffer response → 10 ≤ size)
      → Fruitless c (receive_body env c s size response t) (HasBuffer response)
  unfolding receive_body refuse
  body_Fruitless s none h = record {
    same = refl;
    fails = λ k. absurd k;
    not_malformed = λ e. ground arith;
  }
  body_Fruitless s (some buf) h =
      let (same, bad) = read_fails s (with_header c buf) in
      let r = tcti_read env c s (with_header c buf) (sub64 c.header.size c.index) t in
      fruitless_by (receive_body env c s size (some buf) t)
        (refuse r.context r.stream size (some r.buf) r.rc)
        (to_read s buf (h tt) ∙ finish_read_fails size r bad)
        (record {
          same = same;
          fails = λ _. bad;
          not_malformed = tcti_read_rc env c s (with_header c buf) (sub64 c.header.size c.index) t;
        })

  pub tcti_receive_Fruitless :
      (s : S) (response : Option (List ℕ))
      → Fruitless c (tcti_receive env c s size response t) (HasBuffer response)
  unfolding refuse
  tcti_receive_Fruitless s response =
      elim (ℕ_discrete (receive_guard c size response t) rc_success) [
        | no bad ↦
            fruitless_by (tcti_receive env c s size response t)
              (refuse c s size response (receive_guard c size response t))
              (refused env c s size response t bad)
              (record {
                same = refl;
                fails = λ _. bad;
                not_malformed = receive_guard_rc c size response t;
              })
        | yes ok ↦
            fruitless_by (tcti_receive env c s size response t)
              (receive_body env c s size response t) (to_body s response ok)
              (body_Fruitless s response (guard_size c size response t ok))
      ]
