-- ===== src/Safenet/Votes/Cast.antt =====
-- safenet.go, `votes`: the votes in the list, and the update of one.
use safenet_arbitration_bot.Base.{
  ℕ, zero, suc, ◌≡◌, refl, ap, sym, ◌∙◌, subst, Bool, true, false, some, List, [], ◌∷◌, ◌++◌, All,
  Bytes, length, get_elem?, set,
}
use safenet_arbitration_bot.Safenet.Types.{vote_pending, vote_approved, vote_denied, Commitment}
use safenet_arbitration_bot.Safenet.Rules.{cited_rules}
use safenet_arbitration_bot.Safenet.Votes.{revealed_vote, is_pending}
use safenet_arbitration_bot.Safenet.Votes.Indexed.{sentinels}

-- The reason and the rules that a vote has: none before the sentinel reveals it; the rules of its
-- reason if it denies; no rules if it approves.
pub data IsVote : Commitment → Type 0 where
  unrevealed : {v : Commitment} → v.vote ≡ vote_pending → v.reason ≡ [] → v.rules ≡ [] → IsVote v
  approves : {v : Commitment} → v.vote ≡ vote_approved → v.rules ≡ [] → IsVote v
  denies : {v : Commitment} → v.vote ≡ vote_denied → v.rules ≡ cited_rules v.reason → IsVote v

pub revealed_vote-IsVote :
    (v : Commitment) (approved : Bool) (reason : Bytes)
    → is_pending v.vote ≡ true
    → IsVote v
    → IsVote (revealed_vote v approved reason)
unfolding revealed_vote
revealed_vote-IsVote v false reason pending h = denies refl refl
revealed_vote-IsVote v true reason pending (unrevealed _ _ rules) = approves refl rules
revealed_vote-IsVote v true reason pending (approves vote rules) = approves refl rules
revealed_vote-IsVote v true reason pending (denies vote rules) = cc (ap is_pending vote, pending)

pub revealed_vote-sentinel :
    (v : Commitment) (approved : Bool) (reason : Bytes)
    → (revealed_vote v approved reason).sentinel ≡ v.sentinel
unfolding revealed_vote
revealed_vote-sentinel v true reason = refl
revealed_vote-sentinel v false reason = refl

pub sentinels-append :
    (vs ws : List Commitment) → sentinels (vs ++ ws) ≡ sentinels vs ++ sentinels ws
sentinels-append [] ws = refl
sentinels-append (v ∷ vs) ws = ap (◌∷◌ v.sentinel) (sentinels-append vs ws)

pub length-sentinels : (vs : List Commitment) → length (sentinels vs) ≡ length vs
length-sentinels [] = refl
length-sentinels (v ∷ vs) = ap suc (length-sentinels vs)

pub All-concat :
    (vs : List Commitment) (v : Commitment) → All IsVote vs → IsVote v → All IsVote (vs ++ v ∷ [])
All-concat [] v all h = (h, tt)
All-concat (w ∷ vs) v (first, rest) h = (first, All-concat vs v rest h)

-- A vote that replaces another of the same sentinel.
pub sentinels-set :
    (vs : List Commitment) (i : ℕ) (v w : Commitment)
    → get_elem? vs i ≡ some v
    → w.sentinel ≡ v.sentinel
    → sentinels (set vs i w) ≡ sentinels vs
sentinels-set [] i v w at same = refl
sentinels-set (x ∷ vs) zero v w at same =
    let e : x ≡ v = cc in ap (λ s. s ∷ sentinels vs) (same ∙ ap (λ c. c.sentinel) (sym e))
sentinels-set (x ∷ vs) (suc i) v w at same = ap (◌∷◌ x.sentinel) (sentinels-set vs i v w at same)

pub All-set :
    (vs : List Commitment) (i : ℕ) (w : Commitment)
    → All IsVote vs
    → IsVote w
    → All IsVote (set vs i w)
All-set [] i w all h = tt
All-set (x ∷ vs) zero w (first, rest) h = (h, rest)
All-set (x ∷ vs) (suc i) w (first, rest) h = (first, All-set vs i w rest h)

pub All-at :
    (vs : List Commitment) (i : ℕ) (v : Commitment)
    → All IsVote vs
    → get_elem? vs i ≡ some v
    → IsVote v
All-at [] i v all at = cc
All-at (x ∷ vs) zero v (first, rest) at = subst IsVote (cc) first
All-at (x ∷ vs) (suc i) v (first, rest) at = All-at vs i v rest at
