-- ===== src/Examples/Coding.antt =====
-- JSON at a concrete coding of callers.
use nbagent.Base.{zero, suc, ◌≡◌, refl, Option, none, some, [], ◌∷◌, Text}
use nbagent.Caller.{Caller, Json}

-- A coding of callers: a zero ends each text.
unfoldable pub tape : Text → Text → Text
tape [] t = zero ∷ t
tape (b ∷ s) t = suc b ∷ tape s t

unfoldable pub untape : Text → Text × Text
untape [] = ([], [])
untape (zero ∷ t) = ([], t)
untape (suc b ∷ t) = let (s, r) = untape t in (b ∷ s, r)

pub untape-tape : (s t : Text) → untape (tape s t) ≡ (s, t)
unfolding tape untape
untape-tape [] t = refl
untape-tape (b ∷ s) t = rw (untape-tape s t)

unfoldable pub read : Text → Option Caller
read [] = none
read (k ∷ t) =
    let (agent_id, t1) = untape t in
    let (connection_id, t2) = untape t1 in
    let (request_id, t3) = untape t2 in
    let (node, t4) = untape t3 in
    some (record {
      type = k;
      agent_id = agent_id;
      connection_id = connection_id;
      request_id = request_id;
      node = node;
    })

abbrev pub coding : Json
coding = record {
  marshal =
      λ c. c.type ∷ tape c.agent_id (tape c.connection_id (tape c.request_id (tape c.node [])));
  unmarshal = read;
}

pub coding-reads : (c : Caller) → coding.unmarshal (coding.marshal c) ≡ some c
unfolding read
coding-reads c =
    rw (untape-tape c.agent_id (tape c.connection_id (tape c.request_id (tape c.node [])))) (
      rw (untape-tape c.connection_id (tape c.request_id (tape c.node [])))
        (rw (untape-tape c.request_id (tape c.node [])) (rw (untape-tape c.node []))))
