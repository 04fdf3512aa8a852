-- ===== src/StateHash/Tags.antt =====
-- The byte constants of src/pretrain/train/state_hash.py: the schema tags and the delimiters that
-- stand before each part of what is hashed.
use open_transformers.Prelude.{ℕ, List, [], ◌∷◌}

abbrev pub Bytes : Type 0
Bytes = List ℕ

abbrev pub schema_v2 : Bytes
schema_v2 =
    112 ∷ 114 ∷ 101 ∷ 116 ∷ 114 ∷ 97 ∷ 105 ∷ 110 ∷ 46 ∷ 115 ∷ 116 ∷ 97 ∷ 116 ∷ 101 ∷ 95 ∷ 104 ∷ 97
    ∷ 115 ∷ 104 ∷ 46 ∷ 118 ∷ 50 ∷ 10 ∷ []

abbrev pub schema_v3 : Bytes
schema_v3 =
    112 ∷ 114 ∷ 101 ∷ 116 ∷ 114 ∷ 97 ∷ 105 ∷ 110 ∷ 46 ∷ 115 ∷ 116 ∷ 97 ∷ 116 ∷ 101 ∷ 95 ∷ 104 ∷ 97
    ∷ 115 ∷ 104 ∷ 46 ∷ 118 ∷ 51 ∷ 10 ∷ []

abbrev pub prev_tag : Bytes
prev_tag = 112 ∷ 114 ∷ 101 ∷ 118 ∷ 0 ∷ []

abbrev pub params_tag : Bytes
params_tag = 112 ∷ 97 ∷ 114 ∷ 97 ∷ 109 ∷ 115 ∷ 0 ∷ []

abbrev pub weight_tag : Bytes
weight_tag = 119 ∷ 101 ∷ 105 ∷ 103 ∷ 104 ∷ 116 ∷ 0 ∷ []

abbrev pub optim_step_tag : Bytes
optim_step_tag = 111 ∷ 112 ∷ 116 ∷ 105 ∷ 109 ∷ 95 ∷ 115 ∷ 116 ∷ 101 ∷ 112 ∷ 0 ∷ []

abbrev pub exp_avg_tag : Bytes
exp_avg_tag = 111 ∷ 112 ∷ 116 ∷ 105 ∷ 109 ∷ 95 ∷ 101 ∷ 120 ∷ 112 ∷ 95 ∷ 97 ∷ 118 ∷ 103 ∷ 0 ∷ []

abbrev pub exp_avg_sq_tag : Bytes
exp_avg_sq_tag =
    111 ∷ 112 ∷ 116 ∷ 105 ∷ 109 ∷ 95 ∷ 101 ∷ 120 ∷ 112 ∷ 95 ∷ 97 ∷ 118 ∷ 103 ∷ 95 ∷ 115 ∷ 113 ∷ 0
    ∷ []

abbrev pub max_exp_avg_sq_tag : Bytes
max_exp_avg_sq_tag =
    111 ∷ 112 ∷ 116 ∷ 105 ∷ 109 ∷ 95 ∷ 109 ∷ 97 ∷ 120 ∷ 95 ∷ 101 ∷ 120 ∷ 112 ∷ 95 ∷ 97 ∷ 118 ∷ 103
    ∷ 95 ∷ 115 ∷ 113 ∷ 0 ∷ []

abbrev pub grad_none_tag : Bytes
grad_none_tag = 103 ∷ 114 ∷ 97 ∷ 100 ∷ 95 ∷ 110 ∷ 111 ∷ 110 ∷ 101 ∷ 0 ∷ []

abbrev pub grad_tag : Bytes
grad_tag = 103 ∷ 114 ∷ 97 ∷ 100 ∷ 0 ∷ []

abbrev pub param_groups_tag : Bytes
param_groups_tag = 112 ∷ 97 ∷ 114 ∷ 97 ∷ 109 ∷ 95 ∷ 103 ∷ 114 ∷ 111 ∷ 117 ∷ 112 ∷ 115 ∷ 0 ∷ []

abbrev pub batch_digest_tag : Bytes
batch_digest_tag = 98 ∷ 97 ∷ 116 ∷ 99 ∷ 104 ∷ 95 ∷ 100 ∷ 105 ∷ 103 ∷ 101 ∷ 115 ∷ 116 ∷ 0 ∷ []

abbrev pub batch_tag : Bytes
batch_tag = 98 ∷ 97 ∷ 116 ∷ 99 ∷ 104 ∷ 0 ∷ []

abbrev pub batch_tensor_tag : Bytes
batch_tensor_tag = 98 ∷ 97 ∷ 116 ∷ 99 ∷ 104 ∷ 95 ∷ 116 ∷ 101 ∷ 110 ∷ 115 ∷ 111 ∷ 114 ∷ 0 ∷ []

abbrev pub shard_state_tag : Bytes
shard_state_tag = 115 ∷ 104 ∷ 97 ∷ 114 ∷ 100 ∷ 95 ∷ 115 ∷ 116 ∷ 97 ∷ 116 ∷ 101 ∷ 0 ∷ []
