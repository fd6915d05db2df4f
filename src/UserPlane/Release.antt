-- ===== src/UserPlane/Release.antt =====
-- What a release leaves, and what the providers then hold: UserPlane._run of src/userplane/service.py.
use core_network_traffic_gen.Common.{
  ℕ, ◌≡◌, refl, ap, ap₂, ◌∙◌, sym, arith, ◌==◌, if◌then◌else◌, Bool-cases, Option-cases, inl, inr,
}
use core_network_traffic_gen.Common.{
  Bool, true, false, ◌&&◌, ◌||◌, Option, none, some, List, [], ◌∷◌, ◌++◌,
}
use core_network_traffic_gen.UserPlane.Service.{
  Session, Key, key, same_id, same_key, set_session, get_session, drop_session,
}
use core_network_traffic_gen.UserPlane.Service.{
  Operation, add, release, stop, Call, add_session, remove_session, keys_of, removal, release_keys,
  serve,
}

-- The sessions of a provider that starts each session it gets and stops each one it is told to.
unfoldable pub provide : List Call → List Session → List Session
provide [] held = held
provide (add_session s ∷ calls) held = provide calls (set_session s held)
provide (remove_session s ∷ calls) held = provide calls (drop_session (key s) held)

provide-append :
    (calls more : List Call) (held : List Session)
    → provide (calls ++ more) held ≡ provide more (provide calls held)
unfolding provide
provide-append [] more held = refl
provide-append (add_session s ∷ calls) more held = provide-append calls more (set_session s held)
provide-append (remove_session s ∷ calls) more held =
    provide-append calls more (drop_session (key s) held)

drop_session_absent :
    (k : Key) (held : List Session) → get_session k held ≡ none → drop_session k held ≡ held
unfolding get_session drop_session
drop_session_absent k [] e = refl
drop_session_absent k (x ∷ xs) e = ground (arith, drop_session_absent k xs)

same_id-eq : (i j : Option ℕ) → same_id i j ≡ true → i ≡ j
same_id-eq none none e = refl
same_id-eq (some i) (some j) e = ap some (ground arith)
same_id-eq none (some j) e = ground arith
same_id-eq (some i) none e = ground arith

same_key-eq : (k l : Key) → same_key k l ≡ true → k ≡ l
same_key-eq (r, i) (q, j) e = elim (Bool-cases (r == q)) [
  | inl h ↦
      let rans : r ≡ q = ground arith in
      let ids : i ≡ j = same_id-eq i j (ground arith) in
      ap (λ x. (x, i)) rans ∙ ap (λ y. (q, y)) ids
  | inr h ↦ ground arith
]

key-get_session :
    (k : Key) (s : Session) (held : List Session) → get_session k held ≡ some s → key s ≡ k
unfolding get_session
key-get_session k s [] e = ground arith
key-get_session k s (x ∷ xs) e = elim (Bool-cases (same_key (key x) k)) [
  | inl h ↦ let found : x ≡ s = ground arith in sym (ap key found) ∙ same_key-eq (key x) k h
  | inr h ↦ key-get_session k s xs (ground arith)
]

provide-removal :
    (k : Key) (held : List Session)
    → provide (removal (get_session k held)) held ≡ drop_session k held
unfolding provide
provide-removal k held = elim (Option-cases (get_session k held)) [
  | inl e ↦ ap (λ o. provide (removal o) held) e ∙ sym (drop_session_absent k held e)
  | inr (s, e) ↦
      ap (λ o. provide (removal o) held) e
      ∙ ap (λ l. drop_session l held) (key-get_session k s held e)
]

provide-release_keys :
    (ks : List Key) (held : List Session)
    → provide (release_keys ks held).0 held ≡ (release_keys ks held).1
unfolding release_keys provide
provide-release_keys [] held = refl
provide-release_keys (k ∷ ks) held =
    let calls = (release_keys ks (drop_session k held)).0 in
    provide-append (removal (get_session k held)) calls held
    ∙ ap (provide calls) (provide-removal k held)
    ∙ provide-release_keys ks (drop_session k held)

-- A provider that starts and stops the sessions it is told to holds, after any operations on the
-- queue, just the sessions that the service keeps.
pub provide-serve :
    (ops : List Operation) (sessions : List Session)
    → provide (serve ops sessions).0 sessions ≡ (serve ops sessions).1
unfolding serve provide
provide-serve [] sessions = refl
provide-serve (add s ∷ ops) sessions = provide-serve ops (set_session s sessions)
provide-serve (release ran ∷ ops) sessions =
    let removed = release_keys (keys_of ran sessions) sessions in
    provide-append removed.0 (serve ops removed.1).0 sessions
    ∙ ap (provide (serve ops removed.1).0) (provide-release_keys (keys_of ran sessions) sessions)
    ∙ provide-serve ops removed.1
provide-serve (stop ∷ ops) sessions = refl

same_id_sym : (i j : Option ℕ) → same_id i j ≡ same_id j i
same_id_sym none none = refl
same_id_sym (some i) (some j) = ground arith
same_id_sym none (some j) = refl
same_id_sym (some i) none = refl

same_key_sym : (k l : Key) → same_key k l ≡ same_key l k
same_key_sym (r, i) (q, j) =
    let ids = same_id_sym i j in
    let rans : (r == q) ≡ (q == r) = ground arith in ap₂ (λ x y. x && y) rans ids

get_session-drop_session :
    (k l : Key) (held : List Session)
    → get_session l (drop_session k held) ≡ (if same_key k l then none else get_session l held)
unfolding get_session drop_session
get_session-drop_session k l [] = ground arith
get_session-drop_session k l (x ∷ xs) = elim (Bool-cases (same_key (key x) k)) [
  | inl h ↦
      let same : key x ≡ k = same_key-eq (key x) k h in
      let again : same_key (key x) l ≡ same_key k l = ap (λ y. same_key y l) same in
      ground (arith, get_session-drop_session k l xs)
  | inr h ↦ elim (Bool-cases (same_key (key x) l)) [
    | inl e ↦
        let same : key x ≡ l = same_key-eq (key x) l e in
        let apart : same_key k l ≡ same_key k (key x) = ap (λ y. same_key k y) (sym same) in
        let other : same_key k (key x) ≡ same_key (key x) k = same_key_sym k (key x) in ground arith
    | inr e ↦ ground (arith, get_session-drop_session k l xs)
  ]
]

unfoldable has_key : Key → List Key → Bool
has_key l [] = false
has_key l (k ∷ ks) = same_key k l || has_key l ks

get_session-release_keys :
    (l : Key) (ks : List Key) (held : List Session)
    → get_session l (release_keys ks held).1 ≡ (if has_key l ks then none else get_session l held)
unfolding release_keys has_key
get_session-release_keys l [] held = refl
get_session-release_keys l (k ∷ ks) held =
    get_session-release_keys l ks (drop_session k held)
    ∙ ap (λ o. if has_key l ks then none else o) (get_session-drop_session k l held)
    ∙ ground arith

has_key-keys_of :
    (ran : ℕ) (l : Key) (held : List Session)
    → (l.0 == ran) ≡ false
    → has_key l (keys_of ran held) ≡ false
unfolding has_key keys_of
has_key-keys_of ran l [] off = refl
has_key-keys_of ran l (x ∷ xs) off = elim (Bool-cases (x.ran_ue_ngap_id == ran)) [
  | inl e ↦
      let apart : (x.ran_ue_ngap_id == l.0) ≡ false = ground arith in
      rw (e, apart) (has_key-keys_of ran l xs off)
  | inr e ↦ rw e (has_key-keys_of ran l xs off)
]

keys_of_lem :
    (ran : ℕ) (l : Key) (held : List Session)
    → (if has_key l (keys_of ran held) then none else get_session l held)
      ≡ (if l.0 == ran then none else get_session l held)
unfolding has_key keys_of get_session
keys_of_lem ran l [] = ground arith
keys_of_lem ran l (x ∷ xs) =
    let rest = keys_of_lem ran l xs in
    elim (Bool-cases (x.ran_ue_ngap_id == ran)) [
      | inl e ↦ rw e (elim (Bool-cases (same_key (key x) l)) [
        | inl h ↦
            let ran_of : x.ran_ue_ngap_id ≡ l.0 = ap (λ k. k.0) (same_key-eq (key x) l h) in
            let on : (l.0 == ran) ≡ true = sym (ap (λ n. n == ran) ran_of) ∙ e in rw (h, on) refl
        | inr h ↦ rw h rest
      ])
      | inr e ↦ rw e (elim (Bool-cases (same_key (key x) l)) [
        | inl h ↦
            let ran_of : x.ran_ue_ngap_id ≡ l.0 = ap (λ k. k.0) (same_key-eq (key x) l h) in
            let off : (l.0 == ran) ≡ false = sym (ap (λ n. n == ran) ran_of) ∙ e in
            let unlisted : has_key l (keys_of ran xs) ≡ false = has_key-keys_of ran l xs off in
            rw (h, off, unlisted) refl
        | inr h ↦ rw h rest
      ])
    ]

-- After a release is served, the service keeps no session of that UE, and each session of every other.
pub serve-release :
    (ran : ℕ) (l : Key) (held : List Session)
    → get_session l (serve (release ran ∷ []) held).1
      ≡ (if l.0 == ran then none else get_session l held)
unfolding serve
serve-release ran l held =
    get_session-release_keys l (keys_of ran held) held ∙ keys_of_lem ran l held
