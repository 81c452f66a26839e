-- ===== src/Tests/Codec.antt =====
-- A codec for logs of strings, which reads back what it wrote: numbers in unary, a text with a mark
-- before each character.
use Prim.Native.Char.{Char, code}
use Prim.Native.String.{String, [], ◌∷◌}
use es_ts_example.Common.{
  Bool, nat_beq, if◌then◌else◌, ℕ, zero, suc, ◌≡◌, refl, ap, ◌∙◌, Option, none, some, List, length,
}
use es_ts_example.Effect.{Exit, success, failure}
use es_ts_example.EventSourcing.EventStore.{StoredEvent}
use es_ts_example.EventSourcing.EventStore.JsonFile.{Unknown, Codec}
use es_ts_example.EventSourcing.EventStore.JsonFile.Laws.{IsFaithful}

infixl 5 ◌>>=◌
abbrev ◌>>=◌ {ℓ κ} : {A : Type ℓ} {B : Type κ} → Option A → (A → Option B) → Option B
none >>= f = none
some a >>= f = f a

abbrev write_number : ℕ → String → String
write_number zero rest = "0" ∷ rest
write_number (suc n) rest = "1" ∷ write_number n rest

abbrev write_text : String → String → String
write_text [] rest = "0" ∷ rest
write_text (c ∷ s) rest = "1" ∷ c ∷ write_text s rest

abbrev is_end : Char → Bool
is_end c = nat_beq (code c) 48

abbrev read_number : String → Option (ℕ × String)
read_number [] = none
read_number (c ∷ s) =
    let more = read_number s in
    if is_end c
    then some (0, s)
    else elim more [ none ↦ none | some (n, rest) ↦ some (suc n, rest) ]

abbrev read_text : String → Option (String × String)
read_text [] = none
read_text (c ∷ []) = if is_end c then some ([], []) else none
read_text (c ∷ d ∷ s) =
    let more = read_text s in
    if is_end c
    then some ([], d ∷ s)
    else elim more [ none ↦ none | some (text, rest) ↦ some (d ∷ text, rest) ]

read_number-write_number :
    (n : ℕ) (rest : String) → read_number (write_number n rest) ≡ some (n, rest)
read_number-write_number zero rest = refl
read_number-write_number (suc n) rest = rw (read_number-write_number n rest)

read_text_end : (rest : String) → read_text ("0" ∷ rest) ≡ some ([], rest)
read_text_end [] = refl
read_text_end (c ∷ rest) = refl

read_text-write_text : (s rest : String) → read_text (write_text s rest) ≡ some (s, rest)
read_text-write_text [] rest = read_text_end rest
read_text-write_text (c ∷ s) rest = rw (read_text-write_text s rest)

abbrev write_records : List (StoredEvent String) → String
write_records List.[] = []
write_records (List.◌∷◌ r rs) = write_text r.aggregate_id (
    write_number r.aggregate_version
      (write_number r.event_store_sequence_number (write_text r.event (write_records rs))))

abbrev read_records : ℕ → String → Option (List (StoredEvent String))
read_records zero s = some List.[]
read_records (suc n) s = do
  (aggregate_id, s₁) ← read_text s
  (aggregate_version, s₂) ← read_number s₁
  (event_store_sequence_number, s₃) ← read_number s₂
  (event, s₄) ← read_text s₃
  rest ← read_records n s₄
  some (
      List.◌∷◌
        (record {
          aggregate_id = aggregate_id;
          aggregate_version = aggregate_version;
          event_store_sequence_number = event_store_sequence_number;
          event = event;
        })
        rest)

read_records-write_records :
    (rs : List (StoredEvent String)) → read_records (length rs) (write_records rs) ≡ some rs
read_records-write_records List.[] = refl
read_records-write_records (List.◌∷◌ r rs) = rw (
  read_text-write_text r.aggregate_id,
  read_number-write_number r.aggregate_version,
  read_number-write_number r.event_store_sequence_number,
  read_text-write_text r.event,
  read_records-write_records rs,
)

abbrev pub syntax_error : Unknown
syntax_error = record { error_message = some "Unexpected token"; as_string = "SyntaxError" }

abbrev parsed : Option (List (StoredEvent String)) → Exit Unknown (List (StoredEvent String))
parsed none = failure syntax_error
parsed (some rs) = success rs

abbrev write_log : List (StoredEvent String) → String
write_log rs = write_number (length rs) (write_records rs)

abbrev read_counted : ℕ × String → Option (List (StoredEvent String))
read_counted (n, rest) = read_records n rest

abbrev read_log : String → Option (List (StoredEvent String))
read_log s = read_number s >>= read_counted

read_log-write_log : (rs : List (StoredEvent String)) → read_log (write_log rs) ≡ some rs
read_log-write_log rs =
    ap (λ o. o >>= read_counted) (read_number-write_number (length rs) (write_records rs))
    ∙ read_records-write_records rs

abbrev pub text_codec : Codec String
text_codec = record {
  Json = List (StoredEvent String);
  parse = λ s. parsed (read_log s);
  stringify = write_log;
  decode = success;
  encode = success;
}

pub text_codec-IsFaithful : IsFaithful text_codec
text_codec-IsFaithful = record {
  to_json = λ rs. rs;
  from_json = λ rs. rs;
  encodes = λ rs. refl;
  parses = λ rs. ap parsed (read_log-write_log rs);
  decodes = λ rs. refl;
}
