-- ===== src/Agents/Allowlist.antt =====
-- src/routers/agent_actors.py: who leaves the allowlist of agents, and by whom.
use titan_tyr.Prelude.{
  ◌≡◌, ◌≢◌, ◌↔◌, refl, sym, ap, ◌∙◌, inl, inr, true, false, not, none, some, List, [], ◌∷◌, ◌++◌,
  map, String, ok, raise_if, >>=-elim, ok-injective, arith, select, In, All, All-In, In-select,
  select-In, ℕ-eq, String-eq, ==→eq, eq→==, Bool-cases,
}
use titan_tyr.Session.Rewrites.{In-append, Keyed, In-rewrite_row, rewrite_row-In}
use titan_tyr.Models.Rows.{Uuid, Actor, AgentActor, Db}
use titan_tyr.Session.Queries.{Call, scalar_one_or_none, or_raise}
use titan_tyr.Session.Live.{is_live}
use titan_tyr.Session.Inversion.{or_raise-ok, scalar-one}
use titan_tyr.Handshake.{get_active_agent_actors, enforce_human_confirmation}
use titan_tyr.Handshake.Laws.{IsHuman, enforce_human_confirmation_lem}
use titan_tyr.Contracts.Register.{is_none}
use titan_tyr.Agents.{
  AgentActorRegister, AgentActorDetail, is_agent, live_agents_of, new_agent, add_agent,
  register_agent_actor, revoked_agent, with_agent, revoke_agent_actor,
}

abbrev live_names : List AgentActor → List String
live_names rows =
    map (λ (a : AgentActor). a.actor) (select (λ (a : AgentActor). is_live a.revoked_at) rows)

-- A name of the allowlist has a live row, and a live row is on the allowlist.
name-row :
    (b : String) (rows : List AgentActor)
    → In b (live_names rows)
    → (a : AgentActor) × In a rows × (a.actor ≡ b) × (is_live a.revoked_at ≡ true)
unfolding select
name-row b [] m = absurd m
name-row b (x ∷ rows) m = elim (Bool-cases (is_live x.revoked_at)) [
  | inl t ↦ elim (rw t at m) [
    | inl here ↦ (x, inl refl, sym here, t)
    | inr later ↦ let (a, k, e, l) = name-row b rows later in (a, inr k, e, l)
  ]
  | inr f ↦ let (a, k, e, l) = name-row b rows (rw f at m) in (a, inr k, e, l)
]

row-name :
    (a : AgentActor) (rows : List AgentActor)
    → In a rows
    → is_live a.revoked_at ≡ true
    → In a.actor (live_names rows)
unfolding select
row-name a [] m l = absurd m
row-name a (x ∷ rows) m l = elim m [
  | inl here ↦
      let t : is_live x.revoked_at ≡ true = rw (← here) l in
      rw t (inl (ap (λ (q : AgentActor). q.actor) here))
  | inr later ↦ elim (Bool-cases (is_live x.revoked_at)) [
    | inl t ↦ rw t (inr (row-name a rows later l))
    | inr f ↦ rw f (row-name a rows later l)
  ]
]

-- A revocation that was accepted: its caller, its row and the rows after it.
revoke_agent_actor-row :
    (call : Call) (actor rationale : String) (db : Db) {r : AgentActorDetail × Db}
    → revoke_agent_actor call actor rationale db ≡ ok r
    → IsHuman call.x_actor (get_active_agent_actors db)
      × (row : AgentActor) × (live_agents_of db actor ≡ row ∷ [])
      × (r.1 ≡ with_agent (revoked_agent call rationale row) db)
unfolding revoke_agent_actor
revoke_agent_actor-row call actor rationale db h =
    >>=-elim (enforce_human_confirmation call.x_actor (get_active_agent_actors db)) _ h λ u h1 k1.
      >>=-elim (scalar_one_or_none (live_agents_of db actor)) _ k1 λ found h2 k2.
        >>=-elim (or_raise 404 found) _ k2 λ row h3 k3. (
          (enforce_human_confirmation_lem _ _).0 h1,
          row,
          scalar-one _ (rw (← or_raise-ok 404 found h3) h2),
          sym (ap (λ (x : AgentActorDetail × Db). x.1) (ok-injective k3)),
        )

add_agent-ok :
    (row : AgentActor) (db : Db) {db1 : Db}
    → add_agent row db ≡ ok db1
    → db1 ≡ record db { agent_actors = db.agent_actors ++ row ∷ [] }
unfolding add_agent
add_agent-ok row db h = ground arith

-- The caller is anonymous or one of the named.
abbrev pub IsOneOf : List String → Actor → Type 0
IsOneOf names none = Unit
IsOneOf names (some a) = In a names

-- Accepted requests on the allowlist, in their order, by callers of whom every one is anonymous or one
-- of the named.
pub data Requests (names : List String) : Db → Db → Type 0 where
  done : (db : Db) → Requests names db db
  registers :
      (call : Call) (payload : AgentActorRegister) (db : Db) (r : AgentActorDetail × Db) (last : Db)
      → IsOneOf names call.x_actor
      → register_agent_actor call payload db ≡ ok r
      → Requests names r.1 last
      → Requests names db last
  revokes :
      (call : Call) (actor rationale : String) (db : Db) (r : AgentActorDetail × Db) (last : Db)
      → IsOneOf names call.x_actor
      → revoke_agent_actor call actor rationale db ≡ ok r
      → Requests names r.1 last
      → Requests names db last

-- A registration takes nobody from the allowlist.
register_agent_actor-keeps :
    (call : Call) (payload : AgentActorRegister) (db : Db) {r : AgentActorDetail × Db}
    → register_agent_actor call payload db ≡ ok r
    → (b : String) → In b (get_active_agent_actors db)
    → In b (get_active_agent_actors r.1)
unfolding register_agent_actor get_active_agent_actors
register_agent_actor-keeps call payload db h b m =
    >>=-elim (scalar_one_or_none (live_agents_of db payload.actor)) _ h λ found h1 k1.
      >>=-elim (raise_if (not (is_none found)) 409) _ k1 λ u h2 k2.
        >>=-elim (add_agent (new_agent call payload) db) _ k2 λ db1 h3 k3.
          let (a, k, e, l) = name-row b db.agent_actors m in
          rw (← ok-injective k3) (
            rw (add_agent-ok (new_agent call payload) db h3) (
              rw (← e) (
                row-name a (db.agent_actors ++ new_agent call payload ∷ [])
                  (In-append a db.agent_actors _ k) l)))

All-map :
    (names : List String) (f : String → Type 0) (g : String → Type 0)
    → ((b : String) → f b → g b)
    → All f names
    → All g names
All-map [] f g h k = tt
All-map (n ∷ names) f g h k = (h n k.0, All-map names f g h k.1)

-- However many requests on the allowlist are accepted, and in whatever order, callers who are agents
-- of the allowlist at the start take nobody from it.
pub Requests-get_active_agent_actors :
    (names : List String) (db last : Db)
    → All (λ a. In a (get_active_agent_actors db)) names
    → Requests names db last
    → (b : String) → In b (get_active_agent_actors db)
    → In b (get_active_agent_actors last)
Requests-get_active_agent_actors names _ _ h (done db) b m = m
Requests-get_active_agent_actors names _ _ h (registers call payload db r last who ok' rest) b m =
    Requests-get_active_agent_actors names r.1 last
      (All-map names _ _ (register_agent_actor-keeps call payload db ok') h) rest b
      (register_agent_actor-keeps call payload db ok' b m)
Requests-get_active_agent_actors names _ _ h (revokes call actor why db r last who ok' rest) b m =
    absurd (refused call.x_actor who (revoke_agent_actor-row call actor why db ok').0)
  where
    refused :
        (x_actor : Actor) → IsOneOf names x_actor → IsHuman x_actor (get_active_agent_actors db) → ⊥
    refused none w k = k
    refused (some a) w k = k (All-In (λ n. In n (get_active_agent_actors db)) a names h w)

abbrev agent_id : AgentActor → Uuid
agent_id a = a.id

-- The rows under the primary key.
abbrev pub KeyedAgents : Db → Type 0
KeyedAgents db = Keyed agent_id db.agent_actors

module _ (call : Call) (actor rationale : String) (db : Db) (row : AgentActor)
    (only : live_agents_of db actor ≡ row ∷ []) where
  abbrev rows_then : List AgentActor
  rows_then = (with_agent (revoked_agent call rationale row) db).agent_actors

  found : In row db.agent_actors × (row.actor ≡ actor) × (is_live row.revoked_at ≡ true)
  unfolding live_agents_of
  found =
      let (m, t) = In-select (is_agent actor) row db.agent_actors (rw only (inl refl)) in
      (m, ==→eq row.actor actor (ground arith), ground arith)

  only_live :
      (a : AgentActor)
      → In a db.agent_actors
      → a.actor ≡ actor
      → is_live a.revoked_at ≡ true
      → a ≡ row
  unfolding live_agents_of
  only_live a m e l =
      let k = select-In (is_agent actor) a db.agent_actors m (rw (eq→== a.actor actor e, l)) in
      elim (rw only at k) [ inl same ↦ same | inr none_left ↦ absurd none_left ]

  not_listed : ¬ (In actor (live_names rows_then))
  not_listed m =
      let (a, k, e, l) = name-row actor rows_then m in
      elim (In-rewrite_row agent_id (revoked_agent call rationale row) db.agent_actors a k) [
        | inl same ↦ let dead : is_live a.revoked_at ≡ false = rw same refl in cc (dead, l)
        | inr old ↦ old.1 (ap (λ (q : AgentActor). q.id) (only_live a old.0 e l))
      ]

  others_stay :
      KeyedAgents db
      → (b : String) → b ≢ actor
      → In b (live_names db.agent_actors)
      → In b (live_names rows_then)
  others_stay keyed b n m =
      let (a, k, e, l) = name-row b db.agent_actors m in
      let apart : a.id ≢ row.id = λ same.
        n (sym e ∙ ap (λ (q : AgentActor). q.actor) (keyed a row k found.0 same) ∙ found.1) in
      rw (← e) (
        row-name a rows_then
          (rewrite_row-In agent_id (revoked_agent call rationale row) db.agent_actors a k apart) l)

  others_were : (b : String) → In b (live_names rows_then) → In b (live_names db.agent_actors)
  others_were b m =
      let (a, k, e, l) = name-row b rows_then m in
      elim (In-rewrite_row agent_id (revoked_agent call rationale row) db.agent_actors a k) [
        | inl same ↦
            let dead : is_live a.revoked_at ≡ false = rw same refl in
            let alive : is_live a.revoked_at ≡ true = l in absurd (cc (dead, alive))
        | inr old ↦ rw (← e) (row-name a db.agent_actors old.0 l)
      ]

-- Where no two rows share an identifier, an accepted revocation had a known caller who is no live
-- agent; it takes the agent from the allowlist and nobody else, and the agent then passes the
-- human-confirmation rule.
pub revoke_agent_actor-get_active_agent_actors :
    (call : Call) (actor rationale : String) (db : Db) {r : AgentActorDetail × Db}
    → KeyedAgents db
    → revoke_agent_actor call actor rationale db ≡ ok r
    → IsHuman call.x_actor (get_active_agent_actors db)
      × In actor (get_active_agent_actors db)
      × (enforce_human_confirmation (some actor) (get_active_agent_actors r.1) ≡ ok tt)
      × ((b : String)
          → b ≢ actor
          → In b (get_active_agent_actors db) ↔ In b (get_active_agent_actors r.1))
unfolding get_active_agent_actors
revoke_agent_actor-get_active_agent_actors call actor rationale db {r} keyed h =
    let (human, row, only, e) = revoke_agent_actor-row call actor rationale db h in
    let (m, named, l) = found call actor rationale db row only in
    (
      human,
      rw (← named) (row-name row db.agent_actors m l),
      rw e (
          (enforce_human_confirmation_lem (some actor)
              (live_names (with_agent (revoked_agent call rationale row) db).agent_actors)).1
            (not_listed call actor rationale db row only)),
      λ b n. (
        (λ k. rw e (others_stay call actor rationale db row only keyed b n k)),
        λ k. others_were call actor rationale db row only b (rw e at k),
      ),
    )
