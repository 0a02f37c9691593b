-- ===== src/Gpu/Uuid.antt =====
-- include/yori/gpu/gpu_uuid.hpp: the stable identity of a GPU.
use yori.Common.{Text, Bool, not, ◌&&◌, ◌≤◌, ◌≢◌, ◌≡◌, ◌↔◌, true, ℕ, [], ◌∷◌, refl, arith}
use yori.Common.{contains_nul, contains_nul_iff, IsNulFree, empty, leb, length}

abbrev pub GpuUuid : Type 0
GpuUuid = Text

abbrev pub max_uuid_bytes : ℕ
max_uuid_bytes = 96

-- `GpuUuid::valid`.
unfoldable pub uuid_valid : GpuUuid → Bool
uuid_valid value =
    not (empty value) && leb (length value) max_uuid_bytes && not (contains_nul value)

pub record IsUuid (value : GpuUuid) : Type 0 where
  pub some_byte : value ≢ []
  pub within : length value ≤ max_uuid_bytes
  pub nul_free : IsNulFree value

pub uuid_valid_iff : (value : GpuUuid) → (uuid_valid value ≡ true) ↔ IsUuid value
unfolding uuid_valid
uuid_valid_iff [] = ((λ h. ground arith), (λ h. absurd (h.some_byte refl)))
uuid_valid_iff (c ∷ t) = ground (arith, contains_nul_iff (c ∷ t))
