-- ===== src/Replay/Sample.antt =====
-- A storage for the tests: payloads as numbers, each list behind its length.
use open_transformers.Prelude.{
  ℕ, zero, suc, ◌≡◌, refl, List, [], ◌∷◌, ◌++◌, Option, none, some, Result, ok, raise,
  runtime_error, ◌>>=◌, append_assoc, append-nil, length, sym,
}
use open_transformers.StateHash.Tags.{Bytes}
use open_transformers.StateHash.Feed.{Tensor}
use open_transformers.Replay.Spill.{Payload, tensor, mapping, Storage}

-- A value is read from the front of what was written.
record Codec (A : Type 0) : Type 0 where
  put : A → Bytes
  get : Bytes → Result (A × Bytes)
  get-put : (a : A) (rest : Bytes) → get (put a ++ rest) ≡ ok (a, rest)

number : Codec ℕ
number = record { put = λ n. n ∷ []; get = get_number; get-put = λ n rest. refl }
  where
    get_number : Bytes → Result (ℕ × Bytes)
    get_number [] = raise runtime_error
    get_number (n ∷ rest) = ok (n, rest)

module _ {A : Type 0} (codec : Codec A) where
  put_items : List A → Bytes
  put_items [] = []
  put_items (x ∷ xs) = codec.put x ++ put_items xs

  get_items : ℕ → Bytes → Result (List A × Bytes)
  get_items zero bytes = ok ([], bytes)
  get_items (suc n) bytes = do
    (x, rest) ← codec.get bytes
    (xs, left) ← get_items n rest
    ok (x ∷ xs, left)

  get_list : Bytes → Result (List A × Bytes)
  get_list [] = raise runtime_error
  get_list (n ∷ rest) = get_items n rest

  get-put_items :
      (xs : List A) (rest : Bytes) → get_items (length xs) (put_items xs ++ rest) ≡ ok (xs, rest)
  unfolding put_items get_items
  get-put_items [] rest = refl
  get-put_items (x ∷ xs) rest =
      rw
        (
          append_assoc (codec.put x) (put_items xs) rest,
          codec.get-put x (put_items xs ++ rest),
          get-put_items xs rest,
        )
        refl

  items : Codec (List A)
  unfolding get_list
  items = record { put = λ xs. length xs ∷ put_items xs; get = get_list; get-put = get-put_items }

module _ {A B : Type 0} (first : Codec A) (second : Codec B) where
  both : Codec (A × B)
  both = record {
    put = λ ab. first.put ab.0 ++ second.put ab.1;
    get = λ bytes. (do (a, rest) ← first.get bytes; (b, left) ← second.get rest; ok ((a, b), left));
    get-put = λ ab rest.
        rw
          (
            append_assoc (first.put ab.0) (second.put ab.1) rest,
            first.get-put ab.0 (second.put ab.1 ++ rest),
            second.get-put ab.1 rest,
          )
          refl;
  }

module _ {A B : Type 0} (codec : Codec A) (to : A → B) (from : B → A)
    (to-from : (b : B) → to (from b) ≡ b) where
  through : Codec B
  through = record {
    put = λ b. codec.put (from b);
    get = λ bytes. (do (a, rest) ← codec.get bytes; ok (to a, rest));
    get-put = λ b rest. rw (codec.get-put (from b) rest, to-from b) refl;
  }

fields : Codec (Bytes × (List ℕ × List Bytes))
fields = both (items number) (both (items number) (items (items number)))

tensors : Codec Tensor
tensors =
    through fields (λ f. record { dtype = f.0; tail = f.1.0; rows = f.1.1 })
      (λ t. (t.dtype, (t.tail, t.rows))) (λ t. refl)

-- An option is a list of at most one item.
at_most_one : {A : Type 0} → List A → Option A
at_most_one [] = none
at_most_one (x ∷ xs) = some x

one_or_none : {A : Type 0} → Option A → List A
one_or_none none = []
one_or_none (some x) = x ∷ []

at_most_one-one_or_none : {A : Type 0} (o : Option A) → at_most_one (one_or_none o) ≡ o
unfolding at_most_one one_or_none
at_most_one-one_or_none none = refl
at_most_one-one_or_none (some x) = refl

entries : Codec (List (Bytes × Option Tensor))
entries =
    items (
      both (items number) (through (items tensors) at_most_one one_or_none at_most_one-one_or_none))

-- A tensor behind a 0, a mapping behind a 1.
save_payload : Payload → Bytes
save_payload (tensor t) = 0 ∷ tensors.put t
save_payload (mapping es) = 1 ∷ entries.put es

load_payload : Bytes → Result Payload
load_payload [] = raise runtime_error
load_payload (zero ∷ bytes) = do (t, rest) ← tensors.get bytes; ok (tensor t)
load_payload (suc n ∷ bytes) = do (es, rest) ← entries.get bytes; ok (mapping es)

load-save_payload : (payload : Payload) → load_payload (save_payload payload) ≡ ok payload
unfolding load_payload save_payload
load-save_payload (tensor t) = rw (sym (append-nil (tensors.put t)), tensors.get-put t []) refl
load-save_payload (mapping es) = rw (sym (append-nil (entries.put es)), entries.get-put es []) refl

pub numbers_storage : Storage
numbers_storage = record { save = save_payload; load = load_payload; load-save = load-save_payload }
