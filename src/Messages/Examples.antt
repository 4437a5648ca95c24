-- ===== src/Messages/Examples.antt =====
-- The body of one request.
use infer_platform.Base.{◌≡◌, refl, true, false, [], none, some, codes}
use infer_platform.Messages.{
  ChatCompletionRequest, build_options, build_ollama_options, build_ollama_request,
  fallback_request,
}

bodies : Unit {0}
unfolding build_options build_ollama_options build_ollama_request fallback_request
bodies = tt

abbrev request : ChatCompletionRequest
request = record {
  model = codes "m";
  messages = [];
  stream = true;
  max_tokens = some 7;
  temperature = none;
  top_p = none;
}

only_tokens :
    (fallback_request false request).options
    ≡ some (record { num_predict = some 7; temperature = none; top_p = none })
unfolding bodies
only_tokens = refl
