-- ===== src/Json/Objects.antt =====
-- Reading back what was stored in an object.
use bergrebase.Base.{
  Bytes, arith, if◌then◌else◌, int_eq, list_beq_iff, list_eq, nat_eq, refl, some, ◌==◌, ◌≡◌,
}
use bergrebase.Json.{Json, Fields, end, field, get_field, set_field}

pub get_field-set_field :
    (k j : Bytes) (v : Json) (fs : Fields)
    → get_field j (set_field k v fs) ≡ (if k == j then some v else get_field j fs)
unfolding get_field set_field
get_field-set_field k j v end = refl
get_field-set_field k j v (field i w fs) =
    ground
      (arith, list_beq_iff k j, list_beq_iff i k, list_beq_iff i j, get_field-set_field k j v fs)

-- Storing what is there changes nothing.
pub set_field_same :
    (k : Bytes) (v : Json) (fs : Fields) → get_field k fs ≡ some v → set_field k v fs ≡ fs
unfolding get_field set_field
set_field_same k v end h = cc
set_field_same k v (field i w fs) h = ground (arith, list_beq_iff i k, set_field_same k v fs)
