-- ===== src/Trade/Session/Answers.antt =====
-- Every line is answered as `Answered` says.
use gtu_cse344_systems_progr.Common.{ℕ}
use gtu_cse344_systems_progr.Libc.{Text}
use gtu_cse344_systems_progr.Trade.Market.{Floats}
use gtu_cse344_systems_progr.Trade.Session.{Client, Server, Handled}
use gtu_cse344_systems_progr.Trade.Session.Refusals.{Orders}
use gtu_cse344_systems_progr.Trade.Session.Replies.{Answered}

module _ (fl : Floats) (s : Server) (idx : ℕ) (c : Client) (line : Text) where
  abbrev Here : Handled → Type 0
  Here = Answered fl s idx c line
