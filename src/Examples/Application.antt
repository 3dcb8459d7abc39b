-- ===== src/Examples/Application.antt =====
-- The whole application over the database in memory.
use internal_transfers_syste.Base.{refl, false, none, some, Option, List, [], ◌∷◌}
use internal_transfers_syste.Base.Int.{pos}
use internal_transfers_syste.Base.Format.{format_int}
use internal_transfers_syste.Models.{CreateTransactionRequest}
use internal_transfers_syste.Handler.Response.{Writer}
use internal_transfers_syste.Server.Middleware.{Request, Ending, Platform}
use internal_transfers_syste.Server.Application.{
  create_transaction, ServeMux, serve, application, new,
}
use internal_transfers_syste.Server.Application.Writes.{Logged, serve-Logged}
use internal_transfers_syste.Server.Application.Effects.{IsQuiet, Effect, application-Effect}
use internal_transfers_syste.Server.Application.Program.{Changes, LeavesAlone, new-Changes}
use internal_transfers_syste.Examples.Driver.{driver, lawful_driver}
use internal_transfers_syste.Examples.Whole.{whole_exact}
use internal_transfers_syste.Examples.Memory.{World, memory, memory_lawful}
use internal_transfers_syste.Examples.Accounts.{opening, opening-IsSolvent, start, thirty, answered}
use internal_transfers_syste.Examples.Endpoints.{decoded, fresh}

abbrev surroundings : Platform World
surroundings = record {
  random = λ w. (none, w);
  encode_to_string = λ b. "";
  http_error = λ text status out. out;
  log_panic = λ entry w. w;
  now = λ w. (pos 0, w);
  encoded_size = λ values. 0;
  log_request = λ entry w. w;
}

abbrev posts_transfers : ServeMux (Option CreateTransactionRequest)
posts_transfers = record {
  select = λ patterns r. some ("POST /api/v1/transactions", "");
  refuse = λ r out. out;
}

abbrev post_thirty : Request (Option CreateTransactionRequest)
post_thirty = record {
  method = "POST";
  path = "/api/v1/transactions";
  remote_addr = "10.0.0.1";
  headers = [];
  context_id = none;
  body = some thirty;
}

surroundings-IsQuiet :
    IsQuiet whole_exact
      (memory_lawful false)
      opening
      answered
      opening-IsSolvent
      decoded
      surroundings
      none
      format_int
unfolding memory_lawful
surroundings-IsQuiet = record {
  random_keeps = λ w. refl;
  now_keeps = λ w. refl;
  log_panic_keeps = λ e w. refl;
  log_request_keeps = λ e w. refl;
  ping_keeps = λ f h w. cc;
}

abbrev answer : Ending × Writer × World
answer =
    application (memory false) decoded surroundings none format_int posts_transfers post_thirty
      fresh (start false)

application-Effect_example :
    Effect whole_exact
      (memory_lawful false)
      opening
      answered
      opening-IsSolvent
      decoded
      surroundings
      none
      format_int
      posts_transfers
      (some thirty)
      answer.1
      answer.2.stored
unfolding memory_lawful
application-Effect_example =
    application-Effect whole_exact (memory_lawful false) opening answered opening-IsSolvent decoded
      surroundings none format_int surroundings-IsQuiet posts_transfers post_thirty fresh
      (start false) refl refl

serve-Logged_example :
    Logged fresh
      (serve
        (memory false)
        decoded
        surroundings
        none
        format_int
        create_transaction
        ""
        (some thirty)
        fresh
        (start false)).0
serve-Logged_example =
    serve-Logged (memory false) decoded surroundings none format_int create_transaction ""
      (some thirty) fresh (start false) refl

surroundings-LeavesAlone :
    LeavesAlone whole_exact decoded lawful_driver surroundings none lawful_driver.committed
unfolding lawful_driver
surroundings-LeavesAlone = record {
  random_keeps = λ w. refl;
  now_keeps = λ w. refl;
  log_panic_keeps = λ e w. refl;
  log_request_keeps = λ e w. refl;
  ping_keeps = λ f h w. cc;
}

abbrev sent_to_program : Ending × Writer × World
sent_to_program =
    new driver decoded surroundings none format_int posts_transfers post_thirty fresh (start false)

new-Changes_example :
    Changes whole_exact decoded posts_transfers opening
      (some thirty)
      sent_to_program.1
      (lawful_driver.committed sent_to_program.2)
unfolding lawful_driver
new-Changes_example =
    new-Changes whole_exact decoded lawful_driver surroundings none format_int opening
      opening-IsSolvent posts_transfers post_thirty fresh (start false) refl (λ e h. h)
      surroundings-LeavesAlone refl

abbrev three_requests : List (Request (Option CreateTransactionRequest))
three_requests = post_thirty ∷ post_thirty ∷ post_thirty ∷ []
