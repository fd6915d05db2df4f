-- ===== src/Ngap/Downlink/Replays.antt =====
-- What a learning parse takes, a plain parse takes too once the IEs that it met are learnt.
use core_network_traffic_gen.Common.{
  ℕ, zero, suc, ◌+◌, ◌*◌, ◌≡◌, refl, sym, ap, arith, ltb, leb, ◌==◌, if◌then◌else◌, Bool-cases,
  Option-cases, inl, inr,
}
use core_network_traffic_gen.Common.{
  Bool, true, false, ◌||◌, Option, none, some, List, [], ◌∷◌, ◌++◌, length, slice, get_or,
}
use core_network_traffic_gen.Common.Table.{lookup}
use core_network_traffic_gen.Ngap.Aper.{◌>>=◌, guard, length_at, id_value, octets}
use core_network_traffic_gen.Ngap.Downlink.Values.{first_qfi, session_type}
use core_network_traffic_gen.Ngap.Downlink.Values as V
use core_network_traffic_gen.Ngap.Downlink.Layout.{
  Kind, amf, ran, nas, pair, fixed, learnt, sessions, tunnel, type, flows,
}
use core_network_traffic_gen.Ngap.Downlink.Layout.{Entry, Key, procedure, transfer}
use core_network_traffic_gen.Ngap.Downlink.Container.{
  Got, Learnt, Learning, SessionsReader, same_octets, same_ie, is_learnt, known, read_ie, fields,
  container,
}

-- Every IE of `l` is in `m`.
abbrev pub Within : List Learnt → List Learnt → Type 0
Within l m = (ie : Learnt) → is_learnt ie l ≡ true → is_learnt ie m ≡ true

-- A parse that appends the IEs that it does not know.
abbrev pub Run {ℓ} : Type ℓ → Type ℓ
Run X = List Learnt → Learning → Option (X × Learning)

-- What a learning run found and met, and the plain run of a store that has it all.
pub record Replay {ℓ} {X : Type ℓ} (run : Run X) (store l : List Learnt) (x : X) (r : Learning)
    : Type ℓ where
  pub met : List Learnt
  pub result : r ≡ some met
  pub more : Within l met
  pub again :
      (store' : List Learnt)
      → Within store store'
      → Within met store'
      → run store' none ≡ some (x, none)

abbrev pub Replays {ℓ} : {X : Type ℓ} → Run X → Type ℓ
Replays {X} run =
    (store l : List Learnt) (x : X) (r : Learning)
    → run store (some l) ≡ some (x, r)
    → Replay run store l x r

same_octets_refl : (xs : List ℕ) → same_octets xs xs ≡ true
same_octets_refl [] = refl
same_octets_refl (x ∷ xs) = ground (arith, same_octets_refl xs)

same_ie_refl : (ie : Learnt) → same_ie ie ie ≡ true
same_ie_refl (procedure a, i, v) = ground (arith, same_octets_refl v)
same_ie_refl (transfer, i, v) = ground (arith, same_octets_refl v)

is_learnt-append :
    (ie : Learnt) (l m : List Learnt) → is_learnt ie (l ++ m) ≡ (is_learnt ie l || is_learnt ie m)
unfolding is_learnt
is_learnt-append ie [] m = refl
is_learnt-append ie (x ∷ l) m = ground (arith, is_learnt-append ie l m)

is_learnt_last : (ie : Learnt) (l : List Learnt) → is_learnt ie (l ++ (ie ∷ [])) ≡ true
unfolding is_learnt
is_learnt_last ie l = ground (arith, is_learnt-append ie l (ie ∷ []), same_ie_refl ie)

pub some-inj {ℓ} : {X : Type ℓ} (a b : X) → some a ≡ some b → a ≡ b
some-inj a b h = ap (λ o. elim o [ none ↦ a | some x ↦ x ]) h

module _ {ℓ} {X : Type ℓ} where
  pub Replays-some : (x : X) → Replays (λ store l. some (x, l))
  Replays-some x store l y r h =
      let e = some-inj (x, some l) (y, r) h in
      record {
        met = l;
        result = sym (ap (λ p. p.1) e);
        more = λ ie k. k;
        again = λ store' s m. ap (λ z. some (z, none)) (ap (λ p. p.0) e);
      }

  pub Replays-none : Replays {X = X} (λ store l. none)
  Replays-none store l y r h = absurd (ground arith)

  pub Replays-pure {κ} :
      {A : Type κ} (m : Option A) (k : A → Run X)
      → ((a : A) → Replays (k a))
      → Replays (λ store l. m >>= λ a. k a store l)
  Replays-pure none k h = Replays-none
  Replays-pure (some a) k h = h a

  pub Replays-if :
      (b : Bool) (f g : Run X)
      → Replays f
      → Replays g
      → Replays (λ store l. if b then f store l else g store l)
  Replays-if true f g h k = h
  Replays-if false f g h k = k

  pub Replays-bind {κ} :
      {A : Type κ} (m : Run A) (k : A → Run X)
      → Replays m
      → ((a : A) → Replays (k a))
      → Replays (λ store l. m store l >>= λ (a, l'). k a store l')
  Replays-bind m k hm hk store l x r h = elim (Option-cases (m store (some l))) [
    | inl e ↦ absurd (let k' = rw e at h in ground arith)
    | inr ((a, l'), e) ↦
        let first = hm store l a l' e in
        let second = hk a store first.met x r (rw first.result at (rw e at h)) in
        record {
          met = second.met;
          result = second.result;
          more = λ ie i. second.more ie (first.more ie i);
          again = λ store' s i.
              rw (first.again store' s (λ ie j. i ie (second.more ie j))) (second.again store' s i);
        }
  ]

  pub Replays-known :
      (ie : Learnt) (k : Run X)
      → Replays k
      → Replays (λ store l. known store ie l >>= λ l'. k store l')
  unfolding known
  Replays-known ie k hk store l x r h = elim (Bool-cases (is_learnt ie store)) [
    | inl e ↦
        let rest = hk store l x r (rw e at h) in
        record {
          met = rest.met;
          result = rest.result;
          more = rest.more;
          again = λ store' s i. rw (s ie e) (rest.again store' s i);
        }
    | inr e ↦
        let rest = hk store (l ++ (ie ∷ [])) x r (rw e at h) in
        record {
          met = rest.met;
          result = rest.result;
          more = λ j i. rest.more j (rw (is_learnt-append j l (ie ∷ []), i) refl);
          again =
              λ store' s i. rw (i ie (rest.more ie (is_learnt_last ie l))) (rest.again store' s i);
        }
  ]

module _ (names : ℕ) (reader : List Learnt → SessionsReader) (key : Key)
    (hr : (w : List ℕ) → Replays (λ store l. reader store w l)) where
  read_kind :
      (place crit size : ℕ) (k : Kind) (i : ℕ) (v : List ℕ) (got : Got)
      → Replays (λ store l.
        read_ie names store
          (reader store)
          key
          (record { place = place; crit = crit; kind = k; size = size })
          i
          v
          l
          got)
  unfolding read_ie
  read_kind place crit size fixed i v got =
      Replays-pure (guard (length v == size)) _ (λ _. Replays-some got)
  read_kind place crit size learnt i v got = Replays-known (key, i, v) _ (Replays-some got)
  read_kind place crit size flows i v got =
      Replays-known (key, i, v) _ (Replays-pure (first_qfi v) _ (λ q. Replays-some _))
  read_kind place crit size amf i v got = Replays-pure (id_value v 3 5) _ (λ a. Replays-some _)
  read_kind place crit size ran i v got = Replays-pure (id_value v 2 4) _ (λ a. Replays-some _)
  read_kind place crit size nas i v got = Replays-pure (octets v) _ (λ a. Replays-some _)
  read_kind place crit size pair i v got = Replays-pure (V.pair v) _ (λ a. Replays-some _)
  read_kind place crit size sessions i v got =
      Replays-bind (λ store l. reader store v l) _ (hr v) (λ s. Replays-some _)
  read_kind place crit size tunnel i v got = Replays-pure (V.tunnel v) _ (λ a. Replays-some _)
  read_kind place crit size type i v got =
      Replays-pure (session_type names v) _ (λ a. Replays-some _)

  Replays-read_ie :
      (e : Entry) (i : ℕ) (v : List ℕ) (got : Got)
      → Replays (λ store l. read_ie names store (reader store) key e i v l got)
  Replays-read_ie e i v got = read_kind e.place e.crit e.size e.kind i v got

  Replays-fields :
      (count : ℕ) (buf : List ℕ) (o end : ℕ) (ies : List (ℕ × Entry)) (least : ℕ) (got : Got)
      → Replays (λ store l. fields names store (reader store) key count buf o end ies least l got)
  unfolding fields
  Replays-fields zero buf o end ies least got =
      Replays-if (o == end) _ _ (Replays-some got) Replays-none
  Replays-fields (suc count) buf o end ies least got =
      let ie_id = get_or buf o 0 * 256 + get_or buf (o + 1) 0 in
      Replays-if (ltb end (o + 3)) _ _ Replays-none (
        Replays-pure (lookup ie_id ies) _ (λ e. Replays-pure (guard (leb least e.place)) _ (λ _.
          Replays-pure (guard (get_or buf (o + 2) 0 == e.crit)) _ (λ _.
            Replays-pure (length_at buf (o + 3) end) _ (λ (start, n).
              Replays-pure (guard (leb (start + n) end)) _ (λ _.
                Replays-bind _ _ (Replays-read_ie e ie_id (slice start (start + n) buf) got)
                  (λ got'. Replays-fields count buf (start + n) end ies (e.place + 1) got')))))))

  pub Replays-container :
      (buf : List ℕ) (o end : ℕ) (ies : List (ℕ × Entry)) (got : Got)
      → Replays (λ store l. container names store (reader store) key buf o end ies l got)
  unfolding container
  Replays-container buf o end ies got =
      Replays-if (ltb end (o + 2)) _ _ Replays-none
        (Replays-fields (get_or buf o 0 * 256 + get_or buf (o + 1) 0) buf (o + 2) end ies 0 got)
