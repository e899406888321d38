-- ===== src/Wallet/Owner/Tests.antt =====
-- apps/api/src/wallet/wallet.service.ts: an account takes over the customer of its address.
use i_code_host_pro.Prelude.{◌≡◌, refl, true, none, some, [], ◌∷◌}
use i_code_host_pro.Prelude.Int.{pos}
use i_code_host_pro.Prelude.Text.{codes, text_eq}
use i_code_host_pro.Wallet.Types.{Customer, Db, ok}
use i_code_host_pro.Wallet.Apply.{usd}
use i_code_host_pro.Wallet.Owner.{Turn, link, own_attempts, ensure_owned_customer}
use i_code_host_pro.Wallet.Owner.Links.{owner, KeepsOwner, ensure_owned_customer-owner}

abbrev guest : Customer
guest = record {
  id = 1;
  email = codes "a@b.c";
  name = codes "A";
  user_id = none;
  wallet_balance_cents = pos 500;
  wallet_currency = usd;
}

abbrev tables : Db
tables = record {
  users = record { id = 8; email = codes "a@b.c"; name = none; is_active = true } ∷ [];
  customers = guest ∷ record guest { id = 2; email = codes "d@e.f"; user_id = some 9 } ∷ [];
  transactions = [];
}

abbrev alone : Turn
alone = record { before_user = λ d. d; before_email = λ d. d; before_write = λ d. d; new_id = 30 }

guest-linked : (ensure_owned_customer alone alone 8 tables).0 ≡ ok guest
unfolding ensure_owned_customer own_attempts link text_eq
guest-linked = refl

alone-KeepsOwner : KeepsOwner 2 9 alone
alone-KeepsOwner = record {
  before_user = λ d h. h;
  before_email = λ d h. h;
  before_write = λ d h. h;
}

ensure_owned_customer-owner_example :
    owner 2 (ensure_owned_customer alone alone 8 tables).1.customers ≡ some 9
ensure_owned_customer-owner_example =
    ensure_owned_customer-owner alone alone 8 2 9 tables alone-KeepsOwner alone-KeepsOwner refl
