-- ===== src/Oauth/Families/Chain.antt =====
-- The abstract view of a refresh family: which token is current, which access token goes with it,
-- and whether the family is live; and what each answer of a call does to it.
use mathai_ai_swarm_memory.Common.{◌≡◌, ◌≢◌, Bool, true, false, List, [], ◌∷◌, String}

pub record Chain : Type 0 where
  pub current : String
  pub access_jti : String
  pub is_live : Bool

-- What a call says that it did to a family: nothing, the exchange of a token for a new one with a new
-- access token, the reuse of a token, or a revocation.
pub data Event : Type 0 where
  kept : Event
  exchanged : String → String → String → Event
  reused : String → Event
  revoked : Event

-- The specification: only the current token of a live family is exchanged, only another token of a
-- live family is a reuse, and a reuse and a revocation end the family. No step brings it back.
pub data Step : Chain → Event → Chain → Type 0 where
  keeps : (c : Chain) → Step c kept c
  exchanges :
      (c : Chain) (token new_token new_jti : String)
      → c.is_live ≡ true
      → c.current ≡ token
      → Step c
          (exchanged token new_token new_jti)
          (record { current = new_token; access_jti = new_jti; is_live = true })
  reuses :
      (c : Chain) (token : String)
      → c.is_live ≡ true
      → c.current ≢ token
      → Step c (reused token) (record c { is_live = false })
  revokes : (c : Chain) → Step c revoked (record c { is_live = false })

-- The steps of a sequence of events.
pub data Steps : Chain → List Event → Chain → Type 0 where
  done : (c : Chain) → Steps c [] c
  then_steps :
      {a b c : Chain} {event : Event} {events : List Event}
      → Step a event b
      → Steps b events c
      → Steps a (event ∷ events) c
