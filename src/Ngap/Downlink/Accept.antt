-- ===== src/Ngap/Downlink/Accept.antt =====
-- Reading a container's octets is reading its fields.
use core_network_traffic_gen.Common.{
  ℕ, suc, ◌+◌, ◌*◌, ◌/◌, ◌%◌, ◌≤◌, ◌<◌, ◌≡◌, refl, sym, ap, ◌∙◌, arith, ltb, leb, ◌==◌, le→ltb,
}
use core_network_traffic_gen.Common.{
  true, false, Option, none, some, List, [], ◌∷◌, ◌++◌, append_assoc, append-nil, map, length,
  length-append, slice, slice-append, get_or, All,
}
use core_network_traffic_gen.Common.Table.{lookup}
use core_network_traffic_gen.Ngap.Aper.{◌>>=◌, guard, wrap, short_length, length_at}
use core_network_traffic_gen.Ngap.Aper.Lengths.{
  get_or-append_at, det_size, length-short_length, length_at-short_length,
}
use core_network_traffic_gen.Ngap.Pdu.{ie, join}
use core_network_traffic_gen.Ngap.Pdu.Reader.{Field, field_bytes}
use core_network_traffic_gen.Ngap.Downlink.Layout.{Entry, Key}
use core_network_traffic_gen.Ngap.Downlink.Container.{
  Got, Learnt, Learning, SessionsReader, read_ie, fields,
}

-- A field whose value has a length below 16384.
abbrev pub IsShort : Field → Type 0
IsShort f = (f.ie_id < 65536) × (length f.value < 16384)

pub wrap-short : (v : List ℕ) → length v < 16384 → wrap v ≡ short_length (length v) ++ v
unfolding wrap
wrap-short v h = ground arith

-- The octets before a field's value.
abbrev front_of : Field → List ℕ
front_of f = f.ie_id / 256 ∷ f.ie_id % 256 ∷ f.crit ∷ []

-- Where the parts of a field stand in a buffer.
record Placed (pre : List ℕ) (f : Field) (tail : List ℕ) (buf : List ℕ) : Type 0 where
  id_hi : get_or buf (length pre) 0 ≡ f.ie_id / 256
  id_lo : get_or buf (length pre + 1) 0 ≡ f.ie_id % 256
  crit_at : get_or buf (length pre + 2) 0 ≡ f.crit
  room : length pre + 3 ≤ length buf
  size_at :
      length_at buf (length pre + 3) (length buf)
      ≡ some (length pre + 3 + det_size (length f.value), length f.value)
  inside : length pre + 3 + det_size (length f.value) + length f.value ≤ length buf
  value_at :
      slice
        (length pre + 3 + det_size (length f.value))
        (length pre + 3 + det_size (length f.value) + length f.value)
        buf
      ≡ f.value

module _ (pre : List ℕ) (f : Field) (tail : List ℕ) (short : IsShort f) where
  abbrev det : List ℕ
  det = short_length (length f.value)

  abbrev pre_value : List ℕ
  pre_value = pre ++ front_of f

  buf-det : pre ++ (field_bytes f ++ tail) ≡ pre_value ++ (det ++ (f.value ++ tail))
  unfolding ie
  buf-det =
      ap (λ xs. pre ++ (front_of f ++ (xs ++ tail))) (wrap-short f.value short.1)
      ∙ ap (λ xs. pre ++ (front_of f ++ xs)) (append_assoc det f.value tail)
      ∙ sym (append_assoc pre (front_of f) (det ++ (f.value ++ tail)))

  buf-value : pre ++ (field_bytes f ++ tail) ≡ (pre_value ++ det) ++ (f.value ++ tail)
  buf-value = buf-det ∙ sym (append_assoc pre_value det (f.value ++ tail))

  length-buf :
      length (pre ++ (field_bytes f ++ tail))
      ≡ length pre + 3 + det_size (length f.value) + length f.value + length tail
  length-buf =
      ap length buf-det
      ∙ omega (
        arith,
        length-append pre_value (det ++ (f.value ++ tail)),
        length-append pre (front_of f),
        length-append det (f.value ++ tail),
        length-append f.value tail,
        length-short_length (length f.value),
      )

  size_place :
      length_at
        (pre ++ (field_bytes f ++ tail))
        (length pre + 3)
        (length (pre ++ (field_bytes f ++ tail)))
      ≡ some (length pre + 3 + det_size (length f.value), length f.value)
  size_place =
      let e : length pre + 3 ≡ length pre_value = omega (arith, length-append pre (front_of f)) in
      rw e (
        rw buf-det (
          length_at-short_length pre_value (f.value ++ tail) (length f.value) _ short.1
            (omega (arith, ap length buf-det, length-buf, e))))

  value_place :
      slice
        (length pre + 3 + det_size (length f.value))
        (length pre + 3 + det_size (length f.value) + length f.value)
        (pre ++ (field_bytes f ++ tail))
      ≡ f.value
  value_place = rw buf-value (
      slice-append _ _ (pre_value ++ det) f.value tail
        (omega (
          arith,
          length-append pre_value det,
          length-append pre (front_of f),
          length-short_length (length f.value),
        ))
        refl)

  placed : Placed pre f tail (pre ++ (field_bytes f ++ tail))
  unfolding ie
  placed = record {
    id_hi = let e : length pre ≡ length pre + 0 = omega arith in rw e (get_or-append_at 0 pre _);
    id_lo = get_or-append_at 1 pre _;
    crit_at = get_or-append_at 2 pre _;
    room = omega (arith, length-buf);
    size_at = size_place;
    inside = omega (arith, length-buf);
    value_at = value_place;
  }

bind_step {ℓ κ μ} :
    {A : Type ℓ} {B : Type κ} {C : Type μ} (m : Option A) (k : A → Option C) (f : A → Option B)
    (g : B → Option C)
    → ((a : A) → k a ≡ (f a >>= g))
    → (m >>= k) ≡ ((m >>= f) >>= g)
bind_step none k f g h = refl
bind_step (some a) k f g h = h a

pub bind_cong {ℓ κ} :
    {A : Type ℓ} {B : Type κ} (m : Option A) (f g : A → Option B)
    → ((a : A) → f a ≡ g a)
    → (m >>= f) ≡ (m >>= g)
bind_cong none f g h = refl
bind_cong (some a) f g h = h a

module _ (names : ℕ) (store : List Learnt) (read_sessions : SessionsReader) (key : Key)
    (ies : List (ℕ × Entry)) where
  -- One field read without its octets: its entry, its order and its criticality checked, then its value.
  unfoldable pub read_field : Field → ℕ → Learning → Got → Option (ℕ × Got × Learning)
  read_field f least learning got = lookup f.ie_id ies >>= λ e. guard (leb least e.place) >>= λ _.
      guard (f.crit == e.crit) >>= λ _.
      read_ie names store read_sessions key e f.ie_id f.value learning got >>= λ (got', learning').
      some (e.place + 1, got', learning')

  -- The fields in their order.
  unfoldable pub read_all : List Field → ℕ → Learning → Got → Option (Got × Learning)
  unfolding read_field
  read_all [] least learning got = some (got, learning)
  read_all (f ∷ fs) least learning got =
      read_field f least learning got >>= λ (least', got', learning').
      read_all fs least' learning' got'

  fields_step :
      (count : ℕ) (pre : List ℕ) (f : Field) (tail buf : List ℕ) (least : ℕ) (learning : Learning)
      (got : Got)
      → f.ie_id < 65536
      → Placed pre f tail buf
      → fields names store read_sessions key
          (suc count)
          buf
          (length pre)
          (length buf)
          ies
          least
          learning
          got
        ≡ (read_field f least learning got >>= λ (least', got', learning').
            fields names store read_sessions key count buf
              (length pre + 3 + det_size (length f.value) + length f.value)
              (length buf)
              ies
              least'
              learning'
              got')
  unfolding fields read_field
  fields_step count pre f tail buf least learning got h p =
      let same : f.ie_id / 256 * 256 + f.ie_id % 256 ≡ f.ie_id = omega arith in
      let room : ltb (length buf) (length pre + 3) ≡ false = le→ltb _ _ p.room in
      let fits : leb (length pre + 3 + det_size (length f.value) + length f.value) (length buf)
          ≡ true =
        ground (arith, p.inside) in
      rw (p.id_hi, p.id_lo, p.crit_at, room, same, p.size_at, fits, p.value_at)
        (bind_step (lookup f.ie_id ies) _ _ _ (λ e.
          bind_step (guard (leb least e.place)) _ _ _ (λ _.
            bind_step (guard (f.crit == e.crit)) _ _ _ (λ _.
              bind_step (read_ie names store read_sessions key e f.ie_id f.value learning got) _ _ _
                (λ r. refl)))))

  read_all_step :
      (f : Field) (fs : List Field) (least : ℕ) (learning : Learning) (got : Got)
      → read_all (f ∷ fs) least learning got ≡ (
          read_field f least learning got >>= λ (least', got', learning').
          read_all fs least' learning' got')
  unfolding read_all
  read_all_step f fs least learning got = refl

  pub fields-join :
      (fs : List Field) (pre : List ℕ) (least : ℕ) (learning : Learning) (got : Got)
      → All IsShort fs
      → fields names store read_sessions key
          (length fs)
          (pre ++ join (map field_bytes fs))
          (length pre)
          (length (pre ++ join (map field_bytes fs)))
          ies
          least
          learning
          got
        ≡ read_all fs least learning got
  fields-join [] pre least learning got h =
      unfold fields read_all in rw (append-nil pre) (ground arith)
  fields-join (f ∷ fs) pre least learning got (hf, h) =
      let rest = join (map field_bytes fs) in
      let next = pre ++ field_bytes f in
      let same : pre ++ (field_bytes f ++ rest) ≡ next ++ rest =
        sym (append_assoc pre (field_bytes f) rest) in
      let place : length pre + 3 + det_size (length f.value) + length f.value ≡ length next =
        omega (
          arith,
          length-buf pre f [] hf,
          ap (λ xs. length (pre ++ xs)) (append-nil (field_bytes f)),
        ) in
      fields_step (length fs) pre f rest _ least learning got hf.0 (placed pre f rest hf)
      ∙ bind_cong (read_field f least learning got) _ _
          (λ r. rw (same, place) (fields-join fs next r.0 r.2 r.1 h))
      ∙ sym (read_all_step f fs least learning got)
