-- ===== src/Examples/Sharex.antt =====
-- A deletion by the URL that ShareX was given.
use imghost.Prelude.{ℕ, ◌≡◌, refl, String, true, none, some, [], ◌∷◌}
use imghost.Http.{Exception, ok, raise, ◌>>=◌}
use imghost.Text.{opt_eq}
use imghost.Models.{Album, ShareXDeleteCapability}
use imghost.Repository.{get_album}
use imghost.Tokens.{text}
use imghost.Sharex.{get_sharex_delete_capability, is_consumable}
use imghost.Sharex.Tokens.{
  Outside, ShareXDeleteConfirmationPayload, issue_capability, dumps_confirmation,
}
use imghost.Sharex.Pages.{
  Site, to_confirmation, deleted_page, sharex_delete_entry, sharex_delete_confirm_submit,
  load_sharex_confirmation,
}
use imghost.Sharex.Submit.{sharex_delete_confirm_submit-once}
use imghost.Examples.Letters.{signing}
use imghost.Examples.Data.{album}
use imghost.Examples.Accounts.{tables}

-- JSON of one confirmation.
abbrev outside : Outside
outside = record {
  signing = signing;
  dumps = λ payload. "payload";
  loads = λ s. some (
      some (record {
        selector = text "sel";
        album_id = text "abcdefghj";
        user_id = text "u1";
        created_at = text "0";
      }));
  isoformat = λ t. "0";
  fromisoformat = λ s. some 0;
  sha256 = λ s. s;
  lower = λ s. s;
}

abbrev shared : Album
shared = record album { id = "abcdefghj"; delete_token = none }

abbrev capability : ShareXDeleteCapability
capability = (issue_capability outside 0 "sel" "secret" "abcdefghj" "u1").0

abbrev site : Site
site = record {
  tables = record tables {
    library = record { albums = shared ∷ []; media = [] };
    sharex_delete_capabilities = capability ∷ [];
  };
  storage_deletes = [];
  events = [];
}

abbrev cookie : String
cookie =
    dumps_confirmation outside "k" 0
      (record { selector = "sel"; album_id = "abcdefghj"; user_id = "u1"; created_at = none })

abbrev entered : Site
entered = (sharex_delete_entry outside "k" 0 "abcdefghj" (some "sel.secret") site).1

enters :
    (sharex_delete_entry outside "k" 0 "abcdefghj" (some "sel.secret") site).0
    ≡ ok (to_confirmation "abcdefghj" cookie)
unfolding sharex_delete_entry ◌>>=◌ opt_eq issue_capability
enters = refl

abbrev emptied : Site
emptied = (sharex_delete_confirm_submit outside "k" 5 "abcdefghj" cookie site).1

deletes :
    sharex_delete_confirm_submit outside "k" 5 "abcdefghj" cookie site
    ≡ (ok (deleted_page "abcdefghj" (some "Holiday") 0), emptied)
unfolding sharex_delete_confirm_submit ◌>>=◌ opt_eq issue_capability dumps_confirmation
deletes = refl

there : get_album site.tables.library "abcdefghj" ≡ some shared
unfolding get_album
there = refl

sharex_delete_confirm_submit-once_example :
    (confirmation : ShareXDeleteConfirmationPayload) × (load_sharex_confirmation outside "k" 5
        cookie "abcdefghj"
      ≡ ok confirmation)
    × (c : ShareXDeleteCapability) × (get_sharex_delete_capability site.tables confirmation.selector
        ≡ some c)
    × (is_consumable 5 confirmation.selector "abcdefghj" c ≡ true)
    × (get_album emptied.tables.library "abcdefghj" ≡ none)
    × ((later : ℕ)
        → (e : Exception) × (sharex_delete_confirm_submit outside "k" later "abcdefghj" cookie
              emptied
            ≡ (raise e, emptied)))
sharex_delete_confirm_submit-once_example =
    sharex_delete_confirm_submit-once outside "k" "abcdefghj" cookie 5 site (tt, tt) there deletes
