-- ===== src/Mu.antt =====
-- The marshalling functions of the TSS (Tss2_MU_UINT16_Marshal and Tss2_MU_UINT32_Marshal, of which
-- the TPM2_ST and TPM2_HANDLE versions are instances). The library is not part of the repository:
-- its functions are parameters, and `IsMu` is what their documentation promises.
use tpm2_abrmd.Prelude.{ℕ, ◌+◌, ◌≤◌, ◌≡◌, List, if◌then◌else◌, leb, arith}
use tpm2_abrmd.Bytes.{put16, put32}

-- The response code, the buffer and the offset after the call.
pub record Marshaled : Type 0 where
  pub rc : ℕ
  pub buf : List ℕ
  pub offset : ℕ

-- Arguments: the value, the buffer, its size, and the offset to write at.
pub record Mu : Type 0 where
  pub uint16 : ℕ → List ℕ → ℕ → ℕ → Marshaled
  pub uint32 : ℕ → List ℕ → ℕ → ℕ → Marshaled

-- A value that fits is written in network byte order, and the offset moves past it.
pub record IsMu (mu : Mu) : Type 0 where
  pub uint16_fits :
      (v : ℕ) (buf : List ℕ) (size o : ℕ)
      → o + 2 ≤ size
      → mu.uint16 v buf size o ≡ record { rc = 0; buf = put16 buf o v; offset = o + 2 }
  pub uint32_fits :
      (v : ℕ) (buf : List ℕ) (size o : ℕ)
      → o + 4 ≤ size
      → mu.uint32 v buf size o ≡ record { rc = 0; buf = put32 buf o v; offset = o + 4 }

-- Functions that behave so. A value that does not fit is refused with
-- TSS2_MU_RC_INSUFFICIENT_BUFFER.
abbrev pub mu_uint16 : ℕ → List ℕ → ℕ → ℕ → Marshaled
mu_uint16 v buf size o =
    if leb (o + 2) size
    then record { rc = 0; buf = put16 buf o v; offset = o + 2 }
    else record { rc = 0x90006; buf = buf; offset = o }

abbrev pub mu_uint32 : ℕ → List ℕ → ℕ → ℕ → Marshaled
mu_uint32 v buf size o =
    if leb (o + 4) size
    then record { rc = 0; buf = put32 buf o v; offset = o + 4 }
    else record { rc = 0x90006; buf = buf; offset = o }

abbrev pub network_mu : Mu
network_mu = record { uint16 = mu_uint16; uint32 = mu_uint32 }

uint16-fits :
    (v : ℕ) (buf : List ℕ) (size o : ℕ)
    → o + 2 ≤ size
    → mu_uint16 v buf size o ≡ record { rc = 0; buf = put16 buf o v; offset = o + 2 }
uint16-fits v buf size o h = ground arith

uint32-fits :
    (v : ℕ) (buf : List ℕ) (size o : ℕ)
    → o + 4 ≤ size
    → mu_uint32 v buf size o ≡ record { rc = 0; buf = put32 buf o v; offset = o + 4 }
uint32-fits v buf size o h = ground arith

pub network_mu-IsMu : IsMu network_mu
network_mu-IsMu = record { uint16_fits = uint16-fits; uint32_fits = uint32-fits }
