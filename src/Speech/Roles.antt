-- ===== src/Speech/Roles.antt =====
-- Every speaker has a role, and the first to speak is the agent.
use actioneer_pulse.Common.{
  true, String, Option, none, some, List, [], ◌∷◌, ◌++◌, ◌||◌, map, get_or, elem, any, any-append,
  All, str_eq, str_eq_iff, if◌then◌else◌, ◌≡◌, refl, ◌∙◌, arith,
}
use actioneer_pulse.Common.Int.{leb_ℤ, ltb_ℤ}
use actioneer_pulse.Common.Dict.{lookup}
use actioneer_pulse.Speech.{
  Segment, speakers_from, speakers, earliest_segment, role_of, assign_roles,
}

elem-speakers_from :
    (sp : String) (seen : List String) (segments : List Segment)
    → elem sp (speakers_from seen segments)
      ≡ (elem sp seen || any (λ s. str_eq sp s.speaker) segments)
unfolding speakers_from
elem-speakers_from sp seen [] = ground arith
elem-speakers_from sp seen (s ∷ segments) = ground (
  arith,
  elem-speakers_from sp (if elem s.speaker seen then seen else seen ++ s.speaker ∷ []) segments,
  any-append (str_eq sp) seen (s.speaker ∷ []),
  str_eq_iff sp s.speaker,
)

lookup-map_role :
    (agent sp : String) (labels : List String)
    → lookup sp (map (λ l. (l, role_of agent l)) labels)
      ≡ (if elem sp labels then some (role_of agent sp) else none)
unfolding lookup
lookup-map_role agent sp [] = refl
lookup-map_role agent sp (l ∷ labels) =
    ground (arith, lookup-map_role agent sp labels, str_eq_iff sp l, str_eq_iff l sp)

earliest_segment-first :
    (best : Segment) (segments : List Segment)
    → let e = earliest_segment best segments in
      (leb_ℤ e.start best.start ≡ true) × All (λ s. leb_ℤ e.start s.start ≡ true) segments
unfolding earliest_segment
earliest_segment-first best [] = (ground arith, tt)
earliest_segment-first best (s ∷ segments) =
    let rest = earliest_segment-first (if ltb_ℤ s.start best.start then s else best) segments in
    ground (arith, rest)

-- For any segments, the first of which is s: a label has a role exactly when it speaks in some
-- segment. With an agent given, that label is the agent and every other speaker a caller; without
-- one, the agent is the speaker of a segment that starts no later than any other.
pub lookup-assign_roles :
    (s : Segment) (segments : List Segment) (agent : Option String) (sp : String)
    → let first = earliest_segment s segments in
      (lookup sp (assign_roles (s ∷ segments) agent) ≡ (
        if any (λ x. str_eq sp x.speaker) (s ∷ segments)
        then some (role_of (get_or agent first.speaker) sp)
        else none))
      × All (λ x. leb_ℤ first.start x.start ≡ true) (s ∷ segments)
unfolding assign_roles speakers
lookup-assign_roles s segments agent sp =
    let chosen = get_or agent (earliest_segment s segments).speaker in
    (
      lookup-map_role chosen sp (speakers (s ∷ segments))
          ∙ rw (elem-speakers_from sp [] (s ∷ segments)) refl,
      earliest_segment-first s segments,
    )
