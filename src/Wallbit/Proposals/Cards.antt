-- ===== src/Wallbit/Proposals/Cards.antt =====
-- The proposals that move no money: a card's status and the end of a pause
-- (wallbit/write_tools.py).
use tresqu_api.Common.{
  ◌≡◌, refl, sym, inl, inr, true, false, not, some, [], ◌∷◌, String, Bool-cases, Option-cases,
  str_eq, upper, strip, contains,
}
use tresqu_api.Common.Dict.{lookup}
use tresqu_api.Wallbit.Models.{World, Call, set_card_status, resume, WallbitAccount}
use tresqu_api.Wallbit.Limits.{kill_switch_on}
use tresqu_api.Wallbit.Proposals.{
  Asker, Access, granted, denied, access, card_by_access, preview_set_card_status,
  preview_resume_bot,
}
use tresqu_api.Wallbit.Proposals.Stored.{
  Unmoved-refl, Proposes, store-Proposes, guard, IsOpen, access_granted,
}
use tresqu_api.Wallbit.Proposals.Moves.{true_of_not}

-- The new status is one of the two, on an account that is connected and not paused.
abbrev pub GoodCard : Asker → World → Call → Type 0
GoodCard asker w (set_card_status card_uuid new_status) =
    (str_eq card_uuid "" ≡ false)
    × (contains ("ACTIVE" ∷ "SUSPENDED" ∷ []) new_status ≡ true)
    × IsOpen asker.user w
GoodCard asker w _ = ⊥

-- The account is paused.
abbrev pub GoodResume : Asker → World → Call → Type 0
GoodResume asker w resume =
    (account : WallbitAccount) × (lookup asker.user w.accounts ≡ some account)
    × (kill_switch_on account w.now ≡ true)
GoodResume asker w _ = ⊥

module _ (asker : Asker) (w : World) where
  card_by_access-Proposes :
      (card_uuid new_status : String) (a : Access)
      → str_eq card_uuid "" ≡ false
      → contains ("ACTIVE" ∷ "SUSPENDED" ∷ []) new_status ≡ true
      → a ≡ access asker.user w
      → Proposes (GoodCard asker w) asker w (card_by_access asker card_uuid new_status w a)
  unfolding card_by_access
  card_by_access-Proposes card_uuid new_status (denied code) c s e = Unmoved-refl w
  card_by_access-Proposes card_uuid new_status (granted account) c s e =
      store-Proposes (GoodCard asker w) asker w (set_card_status card_uuid new_status) false w
        (c, s, access_granted asker.user w account (sym e)) (Unmoved-refl w)

  pub preview_set_card_status-Proposes :
      (card_uuid new_status : String)
      → Proposes (GoodCard asker w) asker w (preview_set_card_status asker card_uuid new_status w)
  unfolding preview_set_card_status
  preview_set_card_status-Proposes card_uuid new_status =
      let Good = GoodCard asker w in
      let known = contains ("ACTIVE" ∷ "SUSPENDED" ∷ []) (upper new_status) in
      guard Good asker w (str_eq (strip card_uuid) "") _ _ (λ c.
        guard Good asker w (not known) _ _ (λ s.
          card_by_access-Proposes (strip card_uuid) (upper new_status) (access asker.user w) c
            (true_of_not _ s) refl))

  pub preview_resume_bot-Proposes :
      Proposes (GoodResume asker w) asker w (preview_resume_bot asker w)
  unfolding preview_resume_bot
  preview_resume_bot-Proposes = elim (Option-cases (lookup asker.user w.accounts)) [
    | inl e ↦ rw (e, preview_resume_bot) (Unmoved-refl w)
    | inr (account, e) ↦ elim (Bool-cases (kill_switch_on account w.now)) [
      | inl t ↦
          rw (e, t, preview_resume_bot)
            (store-Proposes (GoodResume asker w) asker w resume true w (account, e, t)
              (Unmoved-refl w))
      | inr f ↦ rw (e, f, preview_resume_bot) (Unmoved-refl w)
    ]
  ]
