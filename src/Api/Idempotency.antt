-- ===== src/Api/Idempotency.antt =====
-- apps/api/src/reliability/idempotency.js and `withIdempotency` of apps/api/src/handlers.js. The state
-- that a computation works on is a parameter.
use xygo_aec.Base.{
  ℕ, ◌+◌, ◌<◌, String, Bool, true, false, ◌&&◌, List, [], ◌∷◌, Option, none, some, ◌===◌, ===_refl,
  leb, ltb, if◌then◌else◌, Value, ◌≡◌, refl, ap, ◌∙◌, arith,
}
use xygo_aec.Api.Keys.{idempotency_key_for}

pub record Response : Type 0 where
  pub status : ℕ
  pub body : Value

pub record Entry : Type 0 where
  pub response : Response
  pub expires_at : ℕ

-- The Map, in the order of insertion.
abbrev pub Entries : Type 0
Entries = List (String × Entry)

unfoldable pub lookup_entry : String → Entries → Option Entry
lookup_entry k [] = none
lookup_entry k ((j, e) ∷ es) = if j === k then some e else lookup_entry k es

-- `entries.delete(key)`
unfoldable pub delete_entry : String → Entries → Entries
delete_entry k [] = []
delete_entry k ((j, e) ∷ es) = if j === k then es else (j, e) ∷ delete_entry k es

-- `entries.set(key, entry)`
unfoldable pub set_entry : String → Entry → Entries → Entries
set_entry k e [] = (k, e) ∷ []
set_entry k e ((j, d) ∷ es) =
    let rest = set_entry k e es in if j === k then (k, e) ∷ es else (j, d) ∷ rest

-- What `get` makes of the entry that it found.
unfoldable pub get_found : Entries → String → ℕ → Option Entry → Entries × Option Response
unfolding delete_entry
get_found es key now none = (es, none)
get_found es key now (some e) =
    if leb e.expires_at now then (delete_entry key es, none) else (es, some e.response)

unfoldable pub get : Entries → String → ℕ → Entries × Option Response
unfolding get_found lookup_entry
get es key now = get_found es key now (lookup_entry key es)

unfoldable pub set : ℕ → Entries → String → Response → ℕ → Entries
unfolding set_entry
set ttl es key response now =
    set_entry key (record { response = response; expires_at = now + ttl }) es

abbrev pub is_success : Response → Bool
is_success r = leb 200 r.status && ltb r.status 300

module _ {S : Type 0} where
  -- After the computation, at the time `done`.
  unfoldable pub remember : ℕ → Entries → String → ℕ → S × Response → (S × Entries) × Response
  unfolding set
  remember ttl es key done (s, r) =
      if is_success r then ((s, set ttl es key r done), r) else ((s, es), r)

  unfoldable pub answer :
      ℕ → String → ℕ → (S → S × Response) → S → Entries × Option Response → (S × Entries) × Response
  unfolding remember
  answer ttl key done compute s (es, some cached) = ((s, es), cached)
  answer ttl key done compute s (es, none) = remember ttl es key done (compute s)

  abbrev keep_entries : Entries → S × Response → (S × Entries) × Response
  keep_entries es (s, r) = ((s, es), r)

  -- A key of the client that is missing or empty is no key. `now` is the time of the look-up, `done`
  -- that of the storing.
  unfoldable pub with_idempotency :
      ℕ
      → Option String
      → String
      → String
      → ℕ
      → ℕ
      → (S → S × Response)
      → S
      → Entries
      → (S × Entries) × Response
  unfolding answer get
  with_idempotency ttl none tenant_id path now done compute s es = keep_entries es (compute s)
  with_idempotency ttl (some client_key) tenant_id path now done compute s es =
      if client_key === ""
      then keep_entries es (compute s)
      else answer ttl (idempotency_key_for tenant_id path client_key) done compute s
          (get es (idempotency_key_for tenant_id path client_key) now)

lookup_entry-set_entry :
    (k : String) (e : Entry) (es : Entries) → lookup_entry k (set_entry k e es) ≡ some e
unfolding lookup_entry set_entry
lookup_entry-set_entry k e [] = ground (arith, ===_refl k)
lookup_entry-set_entry k e ((j, d) ∷ es) = ground (arith, ===_refl k, lookup_entry-set_entry k e es)

-- A stored response is found until its time is over.
get-set :
    (ttl : ℕ) (es : Entries) (key : String) (r : Response) (done later : ℕ)
    → later < done + ttl
    → get (set ttl es key r done) key later ≡ (set ttl es key r done, some r)
unfolding get set get_found
get-set ttl es key r done later h =
    ap (get_found (set_entry key (record { response = r; expires_at = done + ttl }) es) key later)
      (lookup_entry-set_entry key (record { response = r; expires_at = done + ttl }) es)
    ∙ unexpired (leb (done + ttl) later) _ _ (ground arith)
  where
    unexpired : {A : Type 0} (b : Bool) (x y : A) → b ≡ false → (if b then x else y) ≡ y
    unexpired b x y e = ground arith

module _ {S : Type 0} where
  remember_success :
      (ttl : ℕ) (es : Entries) (key : String) (done : ℕ) (p : S × Response)
      → is_success p.1 ≡ true
      → remember ttl es key done p ≡ ((p.0, set ttl es key p.1 done), p.1)
  unfolding remember
  remember_success ttl es key done p h = rw h refl

  answer-miss :
      (ttl : ℕ) (key : String) (done : ℕ) (compute : S → S × Response) (s : S) (es : Entries)
      (q : Entries × Option Response)
      → q.1 ≡ none
      → answer ttl key done compute s q ≡ remember ttl q.0 key done (compute s)
  unfolding answer
  answer-miss ttl key done compute s es (fs, none) h = refl
  answer-miss ttl key done compute s es (fs, some r) h = absurd (cc h)

  answer-hit :
      (ttl : ℕ) (key : String) (done : ℕ) (compute : S → S × Response) (s : S) (es : Entries)
      (r : Response)
      → answer ttl key done compute s (es, some r) ≡ ((s, es), r)
  unfolding answer
  answer-hit ttl key done compute s es r = refl

  with_idempotency-keyed :
      (ttl : ℕ) (client_key tenant_id path : String) (now done : ℕ) (compute : S → S × Response)
      (s : S) (es : Entries)
      → (client_key === "") ≡ false
      → with_idempotency ttl (some client_key) tenant_id path now done compute s es
        ≡ answer ttl
            (idempotency_key_for tenant_id path client_key)
            done
            compute
            s
            (get es (idempotency_key_for tenant_id path client_key) now)
  unfolding with_idempotency
  with_idempotency-keyed ttl client_key tenant_id path now done compute s es h = rw h refl

  -- A write that was computed for a key of the client and succeeded is not computed again for the same
  -- tenant, path and key before the time to live is over: whatever the later computation is and whatever
  -- the state has become, the state stays as it is and the response is the stored one.
  pub with_idempotency-replay :
      (ttl : ℕ) (client_key tenant_id path : String) (now done later end : ℕ)
      (compute again : S → S × Response) (s t : S) (es : Entries)
      → (client_key === "") ≡ false
      → (get es (idempotency_key_for tenant_id path client_key) now).1 ≡ none
      → is_success (compute s).1 ≡ true
      → later < done + ttl
      → with_idempotency ttl
          (some client_key)
          tenant_id
          path
          later
          end
          again
          t
          (with_idempotency ttl (some client_key) tenant_id path now done compute s es).0.1
        ≡ (
          (t, (with_idempotency ttl (some client_key) tenant_id path now done compute s es).0.1),
          (compute s).1,
        )
  with_idempotency-replay ttl client_key tenant_id path now done later end compute again s t es
        named miss success early =
      let key = idempotency_key_for tenant_id path client_key in
      let first =
        with_idempotency-keyed ttl client_key tenant_id path now done compute s es named
        ∙ answer-miss ttl key done compute s es (get es key now) miss
        ∙ remember_success ttl (get es key now).0 key done (compute s) success in
      let stored = ap (λ x. x.0.1) first in
      rw stored (
        with_idempotency-keyed ttl client_key tenant_id path later end again t
          (set ttl (get es key now).0 key (compute s).1 done) named
        ∙ ap (answer ttl key end again t)
            (get-set ttl (get es key now).0 key (compute s).1 done later early)
        ∙ answer-hit ttl key end again t _ (compute s).1)
