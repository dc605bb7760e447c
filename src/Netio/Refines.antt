-- ===== src/Netio/Refines.antt =====
-- The functions of src/netio.c that create and close connections, against the table of open numbers.
use fyp_dht.Prelude.{
  ℕ, ◌≡◌, ◌≢◌, ◌<◌, ◌⊎◌, inl, inr, refl, sym, ap, subst, ◌∙◌, true, false, ◌==◌, Bool-cases, arith,
  List, [], ◌∷◌, Option, Option-cases, some, none, is_some, ℤ, pos, negsuc, get_elem?,
  get_elem?_total, lt-length,
}
use native.Mathlib.Decide.{ℕ_discrete}
use fyp_dht.Prelude.Outcome.{ok, >>=-ok, >>-ok, pure}
use fyp_dht.Platform.{Platform}
use fyp_dht.Netio.State.{NetConnection, NetServer}
use fyp_dht.Netio.Conn.{net_connection_close}
use fyp_dht.Netio.Valid.{IsValid}
use fyp_dht.Netio.Opens.{Refused, Opened, net_connection_create-Opened}
use fyp_dht.Netio.Closes.{ClosedOnly, net_connection_close-ClosedOnly}
use fyp_dht.Netio.Table.{
  Request, creates, closes, Table, opening, closing, Answer, gives, refuses, shuts, Answers,
  no_more, then, has_bev, one_call, calls,
}

busy : (o : Option ℕ) → o ≢ none → is_some o ≡ true
busy none ne = absurd (ne refl)
busy (some b) ne = refl

closing_self : (j : ℕ) (t : Table) → closing (pos j) t j ≡ false
closing_self j t = let hit : (j == j) ≡ true = ground arith in rw hit refl

closing_other : (conn : ℤ) (j : ℕ) (t : Table) → conn ≢ pos j → closing conn t j ≡ t j
closing_other (pos i) j t ne =
    let miss : (i == j) ≡ false = elim (ℕ_discrete i j) [
      | yes same ↦ absurd (ne (ap pos same))
      | no apart ↦ ground arith
    ] in
    rw miss refl
closing_other (negsuc n) j t ne = refl

closing_shut : (conn : ℤ) (j : ℕ) (t : Table) → t j ≡ false → closing conn t j ≡ false
closing_shut (pos i) j t shut = elim (Bool-cases (i == j)) [
  | inl hit ↦ rw hit refl
  | inr miss ↦ rw (miss, shut) refl
]
closing_shut (negsuc n) j t shut = shut

module _ {Ev : Type 0} where
  has_bev_at :
      (srv : NetServer Ev) (j : ℕ) (c : NetConnection)
      → get_elem? srv.connections j ≡ some c
      → has_bev srv j ≡ is_some c.bev
  has_bev_at srv j c e = ap (λ o. elim o [ some c ↦ is_some c.bev | none ↦ false ]) e

  beyond : (srv : NetServer Ev) (j : ℕ) → get_elem? srv.connections j ≡ none → has_bev srv j ≡ false
  beyond srv j e = ap (λ o. elim o [ some c ↦ is_some c.bev | none ↦ false ]) e

  -- Two well-formed tables have the same places.
  both_beyond :
      (s t : NetServer Ev) (j : ℕ)
      → IsValid s
      → IsValid t
      → get_elem? t.connections j ≡ none
      → get_elem? s.connections j ≡ none
  both_beyond s t j vs vt e = elim (Option-cases (get_elem? s.connections j)) [
    | inl outside ↦ outside
    | inr (c, at) ↦
        let (x, here) =
          get_elem?_total t.connections j
            (omega (arith, lt-length s.connections j at, vs.size, vt.size)) in
        cc
  ]

  has_bev-kept :
      (s t : NetServer Ev) (r : ℤ) → IsValid s → IsValid t → Refused s r t → has_bev t ≡ has_bev s
  has_bev-kept s t r vs vt (is, same) = λ i j. at j i
    where
      at : (j : ℕ) → has_bev t j ≡ has_bev s j
      at j = elim (Option-cases (get_elem? t.connections j)) [
        | inl outside ↦ beyond t j outside ∙ sym (beyond s j (both_beyond s t j vs vt outside))
        | inr (c, here) ↦
            let (x, there, bev) = same j c here in
            has_bev_at t j c here ∙ ap is_some bev ∙ sym (has_bev_at s j x there)
      ]

  has_bev-added :
      (ip port : ℕ) (s t : NetServer Ev) (r : ℤ) (o : Opened ip port s r t)
      → has_bev t ≡ opening o.slot (has_bev s)
  has_bev-added ip port s t r o = λ i j. at j i
    where
      at : (j : ℕ) → has_bev t j ≡ opening o.slot (has_bev s) j
      at j = elim (ℕ_discrete o.slot j) [
        | yes same ↦
            let hit : (o.slot == o.slot) ≡ true = ground arith in
            subst (λ k. has_bev t k ≡ opening o.slot (has_bev s) k) same
              (rw hit (has_bev_at t o.slot _ o.written))
        | no ne ↦
            let miss : (o.slot == j) ≡ false = ground arith in
            rw miss (ap (λ o. elim o [ some c ↦ is_some c.bev | none ↦ false ]) (o.others j ne))
      ]

  below_first :
      (ip port : ℕ) (s t : NetServer Ev) (r : ℤ)
      → IsValid s
      → (o : Opened ip port s r t) (j : ℕ) → j < o.slot
      → has_bev s j ≡ true
  below_first ip port s t r vs o j lt =
      let (c, at) = get_elem?_total s.connections j (omega (arith, vs.size, o.bound)) in
      has_bev_at s j c at ∙ busy c.bev (o.first j lt c at)

  -- What net_connection_create does to the open numbers.
  pub created :
      (ip port : ℕ) (s t : NetServer Ev) (r : ℤ)
      → IsValid s
      → IsValid t
      → Refused s r t ⊎ Opened ip port s r t
      → Answer (has_bev s) (creates ip port) r (has_bev t)
  created ip port s t r vs vt (inl refused) =
      subst (Answer (has_bev s) (creates ip port) r) (sym (has_bev-kept s t r vs vt refused)) (
        subst (λ v. Answer (has_bev s) (creates ip port) v (has_bev s)) (sym refused.0)
          (refuses ip port))
  created ip port s t r vs vt (inr o) =
      subst (Answer (has_bev s) (creates ip port) r) (sym (has_bev-added ip port s t r o)) (
        subst (λ v. Answer (has_bev s) (creates ip port) v (opening o.slot (has_bev s)))
          (sym o.result)
          (gives ip port o.slot o.bound (has_bev_at s o.slot o.before o.at ∙ ap is_some o.free)
            (below_first ip port s t r vs o)))

  pub closes-closing :
      (p : Platform Ev) (conn : ℤ) (s t : NetServer Ev)
      → IsValid s
      → IsValid t
      → ClosedOnly p conn s t
      → has_bev t ≡ closing conn (has_bev s)
  closes-closing p conn s t vs vt only = λ i j. at j i
    where
      at : (j : ℕ) → has_bev t j ≡ closing conn (has_bev s) j
      at j = elim (Option-cases (get_elem? t.connections j)) [
        | inl outside ↦
            beyond t j outside
            ∙ sym (closing_shut conn j (has_bev s) (beyond s j (both_beyond s t j vs vt outside)))
        | inr (c, here) ↦ elim (only j c here) [
          | inl (is, free) ↦
              has_bev_at t j c here
              ∙ ap is_some free
              ∙ sym (ap (λ n. closing n (has_bev s) j) is ∙ closing_self j (has_bev s))
          | inr (ne, there) ↦
              has_bev_at t j c here
              ∙ sym (has_bev_at s j c there)
              ∙ sym (closing_other conn j (has_bev s) ne)
        ]
      ]

module _ {Ev : Type 0} (p : Platform Ev) where
  -- What a request leaves: it has returned, and did what the table of open numbers allows.
  abbrev Answered : NetServer Ev → Request → Type 0
  Answered s r =
      (v : ℤ) × (t : NetServer Ev) × (one_call p r s ≡ ok (v, t))
      × IsValid t
      × Answer (has_bev s) r v (has_bev t)

  one_call-Answer : (r : Request) (s : NetServer Ev) → IsValid s → Answered s r
  unfolding one_call pure
  one_call-Answer (creates ip port) s v =
      let (r, t, runs, valid, which) = net_connection_create-Opened p ip port s v in
      (r, t, runs, valid, created ip port s t r v valid which)
  one_call-Answer (closes conn) s v =
      let (t, runs, valid, only) = net_connection_close-ClosedOnly p s conn v in
      (
        pos 0,
        t,
        >>-ok (net_connection_close p conn) _ s runs,
        valid,
        subst (Answer (has_bev s) (closes conn) (pos 0))
            (sym (closes-closing p conn s t v valid only)) (shuts conn),
      )

  -- From a well-formed state every sequence of calls of net_connection_create and net_connection_close
  -- returns, in a well-formed state, and its results are those of the table of open numbers: a connection
  -- gets the least number below 256 that is not open, or -1 and nothing is opened, and a close makes its
  -- number free, if it is one, and no other.
  pub calls-Answers :
      (rs : List Request) (s : NetServer Ev)
      → IsValid s
      → (vs : List ℤ) × (t : NetServer Ev) × (calls p rs s ≡ ok (vs, t))
        × IsValid t
        × Answers (has_bev s) rs vs (has_bev t)
  unfolding calls pure
  calls-Answers [] s v = ([], s, refl, v, no_more (has_bev s))
  calls-Answers (r ∷ rs) s v =
      let (a, t, runs, valid, answer) = one_call-Answer r s v in
      let (vs, u, rest, valid', answers) = calls-Answers rs t valid in
      (
        a ∷ vs,
        u,
        >>=-ok (one_call p r) _ s runs ∙ >>=-ok (calls p rs) _ t rest,
        valid',
        then (has_bev s) r a (has_bev t) rs vs (has_bev u) answer answers,
      )
