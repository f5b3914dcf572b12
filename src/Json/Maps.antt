-- ===== src/Json/Maps.antt =====
-- The laws of maps from strings to values.
use accord.Base.{false, none, some, Bytes, ◌==◌, eq_iff, eq_refl, if◌then◌else◌, ◌≡◌, refl, arith}
use accord.Json.{Json, Fields, no_fields, field, get, delete, set}

pub get-delete :
    (j k : Bytes) (fs : Fields) → get j (delete k fs) ≡ (if k == j then none else get j fs)
unfolding get delete
get-delete j k no_fields = ground arith
get-delete j k (field i v fs) =
    ground (arith, get-delete j k fs, eq_iff k j, eq_iff i k, eq_iff i j)

pub get-set :
    (j k : Bytes) (v : Json) (fs : Fields)
    → get j (set k v fs) ≡ (if k == j then some v else get j fs)
unfolding get set
get-set j k v no_fields = refl
get-set j k v (field i w fs) = ground (arith, get-set j k v fs, eq_iff k j, eq_iff i k, eq_iff i j)

pub delete_absent : (k : Bytes) (fs : Fields) → get k fs ≡ none → delete k fs ≡ fs
unfolding get delete
delete_absent k no_fields h = refl
delete_absent k (field i v fs) h = ground (arith, delete_absent k fs)

pub set_same : (k : Bytes) (v : Json) (fs : Fields) → get k fs ≡ some v → set k v fs ≡ fs
unfolding get set
set_same k v no_fields h = cc
set_same k v (field i w fs) h = ground (arith, set_same k v fs, eq_iff i k)

pub delete-set : (k : Bytes) (v : Json) (fs : Fields) → delete k (set k v fs) ≡ delete k fs
unfolding delete set
delete-set k v no_fields = ground (arith, eq_refl k)
delete-set k v (field i w fs) = ground (arith, delete-set k v fs, eq_refl k)

pub delete-set_ne :
    (j k : Bytes) (v : Json) (fs : Fields)
    → (j == k) ≡ false
    → delete j (set k v fs) ≡ set k v (delete j fs)
unfolding delete set
delete-set_ne j k v no_fields h = ground (arith, eq_iff j k, eq_iff k j)
delete-set_ne j k v (field i w fs) h =
    ground (arith, delete-set_ne j k v fs h, eq_iff j k, eq_iff k j, eq_iff i j, eq_iff i k)

pub set-set : (k : Bytes) (v w : Json) (fs : Fields) → set k v (set k w fs) ≡ set k v fs
unfolding set
set-set k v w no_fields = ground (arith, eq_refl k)
set-set k v w (field i u fs) = ground (arith, set-set k v w fs, eq_refl k)

pub delete_comm : (j k : Bytes) (fs : Fields) → delete j (delete k fs) ≡ delete k (delete j fs)
unfolding delete
delete_comm j k no_fields = refl
delete_comm j k (field i v fs) = ground (arith, delete_comm j k fs)

pub delete_idem : (k : Bytes) (fs : Fields) → delete k (delete k fs) ≡ delete k fs
unfolding delete
delete_idem k no_fields = refl
delete_idem k (field i v fs) = ground (arith, delete_idem k fs)
