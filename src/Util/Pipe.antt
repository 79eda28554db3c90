-- ===== src/Util/Pipe.antt =====
-- `write_all` and `read_tpm_buffer_alloc` of src/util.c at the two ends of one stream.
use tpm2_abrmd.Prelude.{
  ℕ, ◌≡◌, refl, sym, ap, ◌∙◌, List, [], ◌∷◌, ◌++◌, Option, some, none, length, take, take_all,
  arith,
}
use mathlib.Core.List.{append_assoc, append-nil}
use tpm2_abrmd.Stream.{Streams, written, write_error, IsReader, IsWriter}
use tpm2_abrmd.Util.{write_all, read_tpm_buffer_alloc}
use tpm2_abrmd.Util.Write.{write_all_lem}
use tpm2_abrmd.Util.Frames.{IsMessage}
use tpm2_abrmd.Util.Alloc.{read_tpm_buffer_alloc_lem}

abbrev pub concat : List (List ℕ) → List ℕ
concat [] = []
concat (f ∷ fs) = f ++ concat fs

abbrev pub AreMessages : List (List ℕ) → Type 0
AreMessages [] = Unit {0}
AreMessages (f ∷ fs) = IsMessage f × AreMessages fs

module _ {S : Type 0} (st : Streams S) where
  -- One end sends a list of messages: `none` where one of them is not written.
  pub send_all : S → List (List ℕ) → Option S
  send_all s [] = some s
  send_all s (f ∷ fs) = elim (write_all st s f (length f)) [
    | none ↦ none
    | some (s', write_error) ↦ none
    | some (s', written n) ↦ send_all s' fs
  ]

  -- The other end takes as many messages as the list has: `none` where one of them is NULL.
  pub receive_all {ℓ} : {A : Type ℓ} → ℕ → S → List A → Option (S × List (List ℕ))
  receive_all junk s [] = some (s, [])
  receive_all junk s (x ∷ xs) = elim (read_tpm_buffer_alloc st junk s) [
    | none ↦ none
    | some (s', none) ↦ none
    | some (s', some (buf, n)) ↦ elim (receive_all junk s' xs) [
      | none ↦ none
      | some (s'', bufs) ↦ some (s'', take n buf ∷ bufs)
    ]
  ]

module _ {S : Type 0} (st : Streams S) (queue : S → List ℕ) (writer : IsWriter st queue)
    (reader : IsReader st queue) where
  send_lem :
      (s : S) (fs : List (List ℕ))
      → AreMessages fs
      → (s' : S) × (send_all st s fs ≡ some s') × (queue s' ≡ queue s ++ concat fs)
  unfolding send_all
  send_lem s [] m = (s, refl, sym (append-nil (queue s)))
  send_lem s (f ∷ fs) m =
      let w =
        write_all_lem st queue writer s f (length f) (omega (arith, m.0.header)) (omega arith) in
      let (s', e, q) = send_lem w.stream fs m.1 in
      (
        s',
        rw (w.result, send_all) e,
        q
            ∙ (ap (λ l. l ++ concat fs)
                  (w.appended ∙ ap (◌++◌ (queue s)) (take_all (length f) f (omega arith)))
                ∙ append_assoc (queue s) f (concat fs)),
      )

  receive_lem :
      (junk : ℕ) (s : S) (fs : List (List ℕ)) (rest : List ℕ)
      → AreMessages fs
      → queue s ≡ concat fs ++ rest
      → (s' : S) × (receive_all st junk s fs ≡ some (s', fs)) × (queue s' ≡ rest)
  unfolding receive_all
  receive_lem junk s [] rest m q = (s, refl, q)
  receive_lem junk s (f ∷ fs) rest m q =
      let t =
        read_tpm_buffer_alloc_lem st queue reader f (concat fs ++ rest) m.0 junk s
          (q ∙ append_assoc f (concat fs) rest) in
      let (s', e, q') = receive_lem junk t.stream fs rest m.1 t.behind in
      (
        s',
        rw (t.result, receive_all)
            (rw (e) (ap (λ l. some (s', l ∷ fs)) (take_all (length f) f (omega arith)))),
        q',
      )

  -- Messages that one end writes with `write_all`, the other end reads with
  -- `read_tpm_buffer_alloc`: the same ones, in order, and no byte is left, however the stream cuts
  -- what is written and read.
  pub receive_all-send_all :
      (junk : ℕ) (s : S) (fs : List (List ℕ))
      → queue s ≡ []
      → AreMessages fs
      → (sent s' : S) × (send_all st s fs ≡ some sent)
        × (receive_all st junk sent fs ≡ some (s', fs))
        × (queue s' ≡ [])
  receive_all-send_all junk s fs e m =
      let (sent, d, q) = send_lem s fs m in
      let (s', r, q') =
        receive_lem junk sent fs [] m
          (q ∙ (ap (λ l. l ++ concat fs) e ∙ sym (append-nil (concat fs)))) in
      (sent, s', d, r, q')
