-- ===== src/Protocol/Bytes/RoundTrip.antt =====
-- byte_order.hpp: what is written is read back.
use wiretone.Prelude.{ℕ, ◌+◌, ◌*◌, ◌%◌, ◌^◌, ◌<◌, ◌≡◌, List, [], ◌∷◌, arith}
use wiretone.Protocol.Bytes.{IsByte, byte_at, read_bytes}

-- The bytes of a 16-bit value, put together again.
pub u16_of_bytes : (v : ℕ) → v < 2 ^ 16 → (byte_at v 1 * 256 + byte_at v 0) % 2 ^ 16 ≡ v
u16_of_bytes v h = omega arith

pub u32_of_bytes :
    (v : ℕ)
    → v < 2 ^ 32
    → ((((0 * 256 + byte_at v 3) % 2 ^ 32 * 256 + byte_at v 2) % 2 ^ 32 * 256 + byte_at v 1)
            % 2 ^ 32
            * 256
          + byte_at v 0)
        % 2 ^ 32
      ≡ v
u32_of_bytes v h = omega arith

-- The eight bytes of a 64-bit value, most significant first.
abbrev pub image_of_u64 : ℕ → List ℕ
image_of_u64 v =
    byte_at v 7
    ∷ byte_at v 6
    ∷ byte_at v 5
    ∷ byte_at v 4
    ∷ byte_at v 3
    ∷ byte_at v 2
    ∷ byte_at v 1
    ∷ byte_at v 0
    ∷ []

pub u64_of_bytes : (v : ℕ) → v < 2 ^ 64 → read_bytes 64 (image_of_u64 v) 0 8 0 ≡ v
u64_of_bytes v h = omega arith

-- The bytes of a value that was read are the bytes that it was read from.
pub bytes_of_u16 :
    (a b : ℕ)
    → IsByte a
    → IsByte b
    → (byte_at ((a * 256 + b) % 2 ^ 16) 1 ≡ a) × (byte_at ((a * 256 + b) % 2 ^ 16) 0 ≡ b)
bytes_of_u16 a b ha hb = omega arith

pub bytes_of_u32 :
    (a b c d : ℕ)
    → IsByte a
    → IsByte b
    → IsByte c
    → IsByte d
    → let v = read_bytes 32 (a ∷ b ∷ c ∷ d ∷ []) 0 4 0 in
      (byte_at v 3 ≡ a) × (byte_at v 2 ≡ b) × (byte_at v 1 ≡ c) × (byte_at v 0 ≡ d)
bytes_of_u32 a b c d ha hb hc hd = omega arith

pub bytes_of_u64 :
    (a b c d e f g h : ℕ)
    → IsByte a
    → IsByte b
    → IsByte c
    → IsByte d
    → IsByte e
    → IsByte f
    → IsByte g
    → IsByte h
    → let v = read_bytes 64 (a ∷ b ∷ c ∷ d ∷ e ∷ f ∷ g ∷ h ∷ []) 0 8 0 in
      (byte_at v 7 ≡ a)
      × (byte_at v 6 ≡ b)
      × (byte_at v 5 ≡ c)
      × (byte_at v 4 ≡ d)
      × (byte_at v 3 ≡ e)
      × (byte_at v 2 ≡ f)
      × (byte_at v 1 ≡ g)
      × (byte_at v 0 ≡ h)
bytes_of_u64 a b c d e f g h ha hb hc hd he hf hg hh = omega arith
