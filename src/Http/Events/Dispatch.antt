-- ===== src/Http/Events/Dispatch.antt =====
-- The topics that can be asked for are those whose messages are understood.
use go_eth2_client.Prelude.{
  Text, Bytes, codes, Result, ok, err, Bool, true, false, Option, none, some, List, [], ◌∷◌, All,
  Bool-cases, inl, inr, text_eq, if◌then◌else◌, ◌≡◌, ◌≢◌, refl, sym, ◌∙◌, ◌⊎◌, arith, ◌||◌,
}
use go_eth2_client.Api.Event.{
  supported_event_topics, mentions, Formats, EventData, head_event, block_event, attestation,
  voluntary_exit, finalized_checkpoint, chain_reorg, contribution_and_proof, Event,
}
use go_eth2_client.Http.Events.{
  events, check_topics, checked_topics, parsed, dispatch, handle_event,
}

-- Whether the data of a topic is decoded; other topics have no data.
abbrev pub succeeds : {A : Type 0} → Result A → Bool
succeeds (err e) = false
succeeds (ok a) = true

-- What a topic has in a table.
abbrev pub look : List (Text × Bool) → Text → Option Bool
look [] t = none
look ((u, b) ∷ us) t = if text_eq u t then some b else look us t

-- The topics, each with whether its decoder accepts the content.
abbrev pub decoders : Formats → Bytes → List (Text × Bool)
decoders f content =
    (codes "head", succeeds (f.decode_head content))
    ∷ (codes "block", succeeds (f.decode_block content))
    ∷ (codes "attestation", succeeds (f.decode_attestation content))
    ∷ (codes "voluntary_exit", succeeds (f.decode_voluntary_exit content))
    ∷ (codes "finalized_checkpoint", succeeds (f.decode_finalized_checkpoint content))
    ∷ (codes "chain_reorg", succeeds (f.decode_chain_reorg content))
    ∷ (codes "contribution_and_proof", succeeds (f.decode_contribution_and_proof content))
    ∷ []

abbrev is_some : {A : Type 0} → Option A → Bool
is_some none = false
is_some (some a) = true

-- The event, if there is one, has the topic.
abbrev HasTopic : (f : Formats) → Text → Option (Event f) → Type 0
HasTopic f t none = Unit {0}
HasTopic f t (some e) = e.topic ≡ t

abbrev is_true : Option Bool → Bool
is_true none = false
is_true (some b) = b

-- An option and what a table has for the topic: they agree, and an event has the topic.
abbrev Agrees : (f : Formats) → Text → Option (Event f) → Option Bool → Type 0
Agrees f t o l = (is_some o ≡ is_true l) × HasTopic f t o

parsed-Agrees :
    {A : Type 0} (f : Formats) (topic : Text) (of_data : A → EventData f) (r : Result A)
    → Agrees f topic (parsed f topic of_data r) (some (succeeds r))
parsed-Agrees f topic of_data (err e) = (refl, tt)
parsed-Agrees f topic of_data (ok a) = (refl, refl)

-- The switch gives an event for a topic exactly if the topic's decoder accepts the content.
dispatch-Agrees :
    (f : Formats) (topic : Text) (content : Bytes)
    → Agrees f topic (dispatch f topic content) (look (decoders f content) topic)
dispatch-Agrees f topic content = elim (Bool-cases (text_eq (codes "head") topic)) [
  | inl hit ↦ rw hit (parsed-Agrees f topic head_event (f.decode_head content))
  | inr miss0 ↦ rw miss0 (elim (Bool-cases (text_eq (codes "block") topic)) [
    | inl hit ↦ rw hit (parsed-Agrees f topic block_event (f.decode_block content))
    | inr miss1 ↦ rw miss1 (elim (Bool-cases (text_eq (codes "attestation") topic)) [
      | inl hit ↦ rw hit (parsed-Agrees f topic attestation (f.decode_attestation content))
      | inr miss2 ↦ rw miss2 (elim (Bool-cases (text_eq (codes "voluntary_exit") topic)) [
        | inl hit ↦ rw hit (parsed-Agrees f topic voluntary_exit (f.decode_voluntary_exit content))
        | inr miss3 ↦ rw miss3 (elim (Bool-cases (text_eq (codes "finalized_checkpoint") topic)) [
          | inl hit ↦
              rw hit
                (parsed-Agrees f topic finalized_checkpoint (f.decode_finalized_checkpoint content))
          | inr miss4 ↦ rw miss4 (elim (Bool-cases (text_eq (codes "chain_reorg") topic)) [
            | inl hit ↦ rw hit (parsed-Agrees f topic chain_reorg (f.decode_chain_reorg content))
            | inr miss5 ↦
                rw miss5 (elim (Bool-cases (text_eq (codes "contribution_and_proof") topic)) [
                  | inl hit ↦ rw hit (
                      parsed-Agrees f topic contribution_and_proof
                        (f.decode_contribution_and_proof content))
                  | inr miss6 ↦ rw miss6 ((refl, tt))
                ])
          ])
        ])
      ])
    ])
  ])
]

seven :
    (a b c d e v p : Bool) (h1 h2 h3 h4 h5 h6 h7 : Bool)
    → (a || (b || (c || (d || (e || (v || (p || false)))))))
      ≡ is_some (
          if e
          then some h1
          else if b
          then some h2
          else if a
          then some h3
          else if v
          then some h4
          else if d
          then some h5
          else if c
          then some h6
          else if p
          then some h7
          else none)
seven a b c d e v p h1 h2 h3 h4 h5 h6 h7 = ground arith

mentions-look :
    (f : Formats) (topic : Text) (content : Bytes)
    → mentions supported_event_topics topic ≡ is_some (look (decoders f content) topic)
mentions-look f topic content =
    seven (text_eq (codes "attestation") topic) (text_eq (codes "block") topic)
      (text_eq (codes "chain_reorg") topic) (text_eq (codes "finalized_checkpoint") topic)
      (text_eq (codes "head") topic) (text_eq (codes "voluntary_exit") topic)
      (text_eq (codes "contribution_and_proof") topic) (succeeds (f.decode_head content))
      (succeeds (f.decode_block content)) (succeeds (f.decode_attestation content))
      (succeeds (f.decode_voluntary_exit content))
      (succeeds (f.decode_finalized_checkpoint content)) (succeeds (f.decode_chain_reorg content))
      (succeeds (f.decode_contribution_and_proof content))

check_topics-All :
    (ts : List Text)
    → check_topics ts ≡ ok tt
    → All (λ t. mentions supported_event_topics t ≡ true) ts
check_topics-All [] h = tt
check_topics-All (t ∷ ts) h = elim (Bool-cases (mentions supported_event_topics t)) [
  | inl known ↦ (known, check_topics-All ts (rw known at h))
  | inr unknown ↦ absurd (let k = rw unknown at h in ground arith)
]

-- A message of a topic is handed over with its topic, or its topic's decoder refused the content.
abbrev pub IsUnderstood : Formats → Bytes → Text → Type 0
IsUnderstood f content t =
    ((e : Event f) × (handle_event f true (some (record { event = t; content = content })) ≡ some e)
      × (e.topic ≡ t))
    ⊎ (look (decoders f content) t ≡ some false)

understood :
    (f : Formats) (content : Bytes) (t : Text) (o : Option (Event f)) (l : Option Bool)
    → handle_event f true (some (record { event = t; content = content })) ≡ o
    → look (decoders f content) t ≡ l
    → Agrees f t o l
    → is_some l ≡ true
    → IsUnderstood f content t
understood f content t (some e) l h k (s, has) s' = inl (e, h, has)
understood f content t none none h k (s, has) s' = absurd (ground arith)
understood f content t none (some true) h k (s, has) s' = absurd (ground arith)
understood f content t none (some false) h k (s, has) s' = inr k

known-IsUnderstood :
    (f : Formats) (content : Bytes) (t : Text)
    → mentions supported_event_topics t ≡ true
    → IsUnderstood f content t
unfolding handle_event
known-IsUnderstood f content t h =
    understood f content t (dispatch f t content) (look (decoders f content) t) refl refl
      (dispatch-Agrees f t content) (sym (mentions-look f t content) ∙ h)

All-IsUnderstood :
    (f : Formats) (content : Bytes) (ts : List Text)
    → All (λ t. mentions supported_event_topics t ≡ true) ts
    → All (IsUnderstood f content) ts
All-IsUnderstood f content [] h = tt
All-IsUnderstood f content (t ∷ ts) (h, hs) =
    (known-IsUnderstood f content t h, All-IsUnderstood f content ts hs)

checked_topics-ok :
    (valid_url : Text → Result (Unit {0})) (ts : List Text) (r : Result (Unit {0})) {url : Text}
    → checked_topics valid_url ts r ≡ ok url
    → r ≡ ok tt
checked_topics-ok valid_url ts (err e) h = ground arith
checked_topics-ok valid_url ts (ok tt) h = refl

-- If `Events` accepts a list of topics, there is one at least, and a message of any of them, with
-- any content, is understood: the handler gets an event with that topic, or the decoder of that
-- topic refused the content. No topic that can be asked for is passed over as unhandled.
pub events-IsUnderstood :
    (f : Formats) (valid_url : Text → Result (Unit {0})) (topics : List Text) (content : Bytes)
    {url : Text}
    → events valid_url topics ≡ ok url
    → (topics ≢ []) × All (IsUnderstood f content) topics
unfolding events
events-IsUnderstood f valid_url [] content h = ground arith
events-IsUnderstood f valid_url (t ∷ ts) content h = (
  ground arith,
  All-IsUnderstood f content (t ∷ ts)
      (check_topics-All (t ∷ ts) (checked_topics-ok valid_url (t ∷ ts) (check_topics (t ∷ ts)) h)),
)
