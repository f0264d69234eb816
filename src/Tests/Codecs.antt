-- ===== src/Tests/Codecs.antt =====
-- A small implementation of what the database takes from other libraries, for the examples.
use blockscape.Event.{RawEvent, RawEvents}
use blockscape.Database.Interface.{Externals}
use blockscape.Base.{ℕ, zero, suc, ◌≡◌, refl, sym, ap, ◌∙◌, some, List, [], ◌∷◌, Bin, length}

-- A number as that many bytes.
abbrev pub ones : ℕ → Bin
ones zero = []
ones (suc n) = 1 ∷ ones n

pub length-ones : (n : ℕ) → length (ones n) ≡ n
length-ones zero = refl
length-ones (suc n) = ap suc (length-ones n)

pub ones_inj : (a b : ℕ) → ones a ≡ ones b → a ≡ b
ones_inj a b h = sym (length-ones a) ∙ ap length h ∙ length-ones b

-- A byte is written as two more than it is, an event begins with 1, and a tick stands behind 0.
abbrev pub write_bytes : List ℕ → Bin → Bin
write_bytes [] rest = rest
write_bytes (b ∷ bs) rest = suc (suc b) ∷ write_bytes bs rest

abbrev pub write_list : List RawEvent → Bin → Bin
write_list [] rest = rest
write_list (e ∷ l) rest = 1 ∷ write_bytes e (write_list l rest)

abbrev pub write_events : RawEvents → Bin
write_events [] = []
write_events (entry ∷ m) = 0 ∷ entry.0 ∷ write_list entry.1 (write_events m)

abbrev pub read : Bin → List ℕ × List RawEvent × RawEvents
read [] = ([], [], [])
read (zero ∷ []) = ([], [], [])
read (zero ∷ t ∷ rest) = let (bytes, l, m) = read rest in ([], [], (t, l) ∷ m)
read (suc zero ∷ rest) = let (bytes, l, m) = read rest in ([], bytes ∷ l, m)
read (suc (suc b) ∷ rest) = let (bytes, l, m) = read rest in (b ∷ bytes, l, m)

read-bytes :
    (bs : List ℕ) (rest : Bin) (l : List RawEvent) (m : RawEvents)
    → read rest ≡ ([], l, m)
    → read (write_bytes bs rest) ≡ (bs, l, m)
read-bytes [] rest l m h = h
read-bytes (b ∷ bs) rest l m h = rw (read-bytes bs rest l m h) refl

read-list :
    (k : List RawEvent) (rest : Bin) (m : RawEvents)
    → read rest ≡ ([], [], m)
    → read (write_list k rest) ≡ ([], k, m)
read-list [] rest m h = h
read-list (e ∷ k) rest m h = rw (read-bytes e (write_list k rest) k m (read-list k rest m h)) refl

pub read-events : (m : RawEvents) → read (write_events m) ≡ ([], [], m)
read-events [] = refl
read-events (entry ∷ m) = rw (read-list entry.1 (write_events m) m (read-events m)) refl

abbrev pub sample_externals : Externals
sample_externals = record {
  key_bytes = record { of_u256 = ones; of_u160 = ones; of_u64 = ones; of_coord = λ c. [] };
  of_u160_inj = λ a b fa fb h. ones_inj a b h;
  of_u64_inj = λ a b fa fb h. ones_inj a b h;
  u64 = record {
    serialize = ones;
    deserialize = λ b. some (length b);
    deserialize-serialize = λ a fit. ap some (length-ones a);
  };
  events = record {
    serialize = write_events;
    deserialize = λ b. some (read b).2;
    deserialize-serialize = λ m fit. rw (read-events m) refl;
  };
  hash_pub_key = length;
}
