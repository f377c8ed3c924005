-- ===== src/Tests/Settings.antt =====
-- internal/safesettings, on a storage with one owner.
use mathlib.Core.List.{flatten}
use safenet_arbitration_bot.Base.{
  ◌≡◌, ◌≤◌, ◌⊎◌, refl, true, false, none, List, [], ◌∷◌, ◌++◌, replicate, length, is_zero, bytes_eq,
  Result, ok, arith, if◌then◌else◌,
}
use safenet_arbitration_bot.Keccak.{hash}
use safenet_arbitration_bot.Keccak.Stub.{stub}
use safenet_arbitration_bot.Ethrpc.Types.{Address, Hash}
use safenet_arbitration_bot.Safesettings.{
  slot, list_sentinel, max_list_length, read_word, read_address, mapping_slot, list_loop, list,
}
use safenet_arbitration_bot.Safesettings.Linked.{Next, Leads, list-Leads, Leads-list}

abbrev an_owner : Address
an_owner = replicate 20 3

-- The sentinel's entry is the owner, whose entry is the sentinel.
abbrev one_owner : Hash → Result Hash
one_owner s =
    if bytes_eq s (replicate 12 0 ++ an_owner)
    then ok (replicate 31 0 ++ 1 ∷ [])
    else ok (replicate 12 0 ++ an_owner)

owners_run : list ⦃k = stub⦄ one_owner (slot 2) none ≡ (an_owner ∷ [], none)
unfolding list list_loop read_address read_word mapping_slot hash flatten bytes_eq is_zero
owners_run = refl

list-Leads_example :
    (b : Address) × Next ⦃k = stub⦄ one_owner (slot 2) list_sentinel b
    × ((Leads ⦃k = stub⦄ one_owner (slot 2) b (an_owner ∷ [])
          × (length (an_owner ∷ []) ≤ max_list_length))
        ⊎ ((is_zero b ≡ true) × (◌≡◌ {A = List Address} (an_owner ∷ []) [])))
list-Leads_example = list-Leads ⦃k = stub⦄ one_owner (slot 2) owners_run

owner-Next : Next ⦃k = stub⦄ one_owner (slot 2) list_sentinel an_owner
unfolding mapping_slot hash flatten bytes_eq
owner-Next = (replicate 12 0 ++ an_owner, refl, refl)

owner-Leads : Leads ⦃k = stub⦄ one_owner (slot 2) an_owner (an_owner ∷ [])
unfolding mapping_slot hash flatten bytes_eq is_zero
owner-Leads = (refl, refl, refl, (list_sentinel, (replicate 31 0 ++ 1 ∷ [], refl, refl), refl))

owner-filled : is_zero an_owner ≡ false
unfolding is_zero
owner-filled = refl

Leads-list_example : list ⦃k = stub⦄ one_owner (slot 2) none ≡ (an_owner ∷ [], none)
Leads-list_example =
    Leads-list ⦃k = stub⦄ one_owner (slot 2) an_owner (an_owner ∷ []) owner-Next owner-filled
      owner-Leads (omega arith)
