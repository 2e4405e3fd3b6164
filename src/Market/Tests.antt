-- ===== src/Market/Tests.antt =====
-- A sale, and then an attempt to sell the business again.
use idea_project.Base.{◌&&◌, false, ℕ, ◌≡◌, ◌≤◌, refl, arith, any, count, false, none}
use idea_project.Schema.{Db}
use idea_project.Common.Prisma.{list_prisma}
use idea_project.Common.Money.{whole_numbers}
use idea_project.Businesses.Service.{is_business}
use idea_project.Market.Closing.{is_openable}
use idea_project.Market.Requests.{
  Services, Request, Reach, start, next, accept_offer, handle, is_deal_for,
}
use idea_project.Market.History.{Reach-one_deal}
use idea_project.Samples.{
  seller, market, plain_env, plain_crypto, any_event, sign_plainly, plain_limits, plain_provider,
}

abbrev services : Services
services = record {
  prisma = list_prisma;
  numbers = whole_numbers;
  env = plain_env;
  crypto = plain_crypto;
  parse_json = any_event;
  verify_id_token = λ credential client_id. none;
  sign_url = sign_plainly;
  ai_config = plain_limits;
  provider = plain_provider;
}

abbrev first_sale : Request ℕ
first_sale = accept_offer seller 20 40 5

abbrev second_sale : Request ℕ
second_sale = accept_offer seller 21 41 6

abbrev after : Db
after = handle services second_sale (handle services first_sale market)

path : Reach services market after
path = next second_sale (next first_sale start tt) tt

one_shop : (id : ℕ) → count (is_business id) market.businesses ≤ 1
one_shop id = ground arith

Reach-one_deal_example :
    (count (is_deal_for 10) after.deals ≤ 1)
    × ((any (is_deal_for 10) after.deals && any (is_openable 10) after.businesses) ≡ false)
Reach-one_deal_example = Reach-one_deal services path one_shop (λ id. refl) 10
