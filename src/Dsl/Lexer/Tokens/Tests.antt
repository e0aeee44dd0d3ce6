-- ===== src/Dsl/Lexer/Tokens/Tests.antt =====
-- `dsl_lexer_get_tokens` of src/dsl/dsl_lexer.c on small inputs.
use fman.Prelude.{
  ◌≡◌, refl, Bool, true, false, List, [], ◌∷◌, ◌++◌, replicate, Text, codes, length, map,
}
use fman.Dsl.Token.{DslTokenType, DslToken, token_eof, token_newline, token_get, token_ident}
use fman.Dsl.Lexer.{DslLexer}
use fman.Dsl.Lexer.Tokens.{Gathered, running, null_tokens, all_tokens, dsl_lexer_get_tokens}

abbrev lexer_with : List Bool → Text → DslLexer
lexer_with allocs input = record {
  input = input;
  len = length input;
  pos = 0;
  line = 1;
  column = 1;
  read_body_raw_next = false;
  allocs = allocs;
}

abbrev types_of : Gathered → List DslTokenType
types_of running = []
types_of (null_tokens freed) = []
types_of (all_tokens tokens capacity) = map (λ (t : DslToken). t.type) tokens

one_line :
    types_of (dsl_lexer_get_tokens (lexer_with [] (codes "GET a\n"))).0
    ≡ token_get ∷ token_ident ∷ token_newline ∷ token_eof ∷ []
unfolding dsl_lexer_get_tokens codes
one_line = refl

no_memory : (dsl_lexer_get_tokens (lexer_with (false ∷ []) (codes "GET a\n"))).0 ≡ null_tokens []
unfolding dsl_lexer_get_tokens codes
no_memory = refl

-- The array of 16 is full, and there is no memory for a larger one: 16 texts of newlines are given back.
full :
    (dsl_lexer_get_tokens (lexer_with (replicate 17 true ++ false ∷ []) (replicate 17 10))).0
    ≡ null_tokens (replicate 16 (codes "\\n"))
unfolding dsl_lexer_get_tokens codes
full = refl
