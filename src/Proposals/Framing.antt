-- ===== src/Proposals/Framing.antt =====
-- A property that writes outside the ledger keep is kept by the proposals service.
use freelancing_platform.Prelude.{List, [], ◌∷◌, refl, All}
use freelancing_platform.Database.Rows.Proposal.{Proposal}
use freelancing_platform.Database.Tables.{Db}
use freelancing_platform.Database.Session.Keeps.{Holds, Keeps-commit, Keeps-rollback}
use freelancing_platform.Ledger.Frame.{Quiet, modify-Keeps}
use freelancing_platform.Payments.Effects.{add_proposal, save_proposal}
use freelancing_platform.Proposals.Rules.{Tends}

abbrev Anything : Proposal → Type 0
Anything p = Unit

All-Anything : (ps : List Proposal) → All Anything ps
All-Anything [] = tt
All-Anything (p ∷ ps) = (tt, All-Anything ps)

pub Quiet-Tends : (P : Db → Type 0) → Quiet (Holds P) → Tends Anything (Holds P)
unfolding add_proposal save_proposal
Quiet-Tends P quiet = record {
  write = λ f same_journals same_proposals. quiet.write f same_journals;
  adds = λ p c. modify-Keeps quiet _ (λ db. refl);
  saves = λ p c. modify-Keeps quiet _ (λ db. refl);
  known = λ s h. All-Anything s.live.proposals;
  commits = Keeps-commit P;
  rolls_back = Keeps-rollback P;
  drafts = λ id project user v first priced. tt;
  revises = λ v p c next priced. tt;
  moves = λ to p c. tt;
}
