-- ===== src/Lib.antt =====
-- A model of the core of glsld, a language server for GLSL, and what is proved of it.
--
-- The program reads a shader in stages. The tokenizer hands one token at a time to the preprocessor,
-- a state machine that collects directives, keeps a stack of conditionals and a macro table, and
-- passes the other tokens on to macro expansion. An expression of `#if` or `#elif` has its `defined`
-- operators replaced, is expanded, and goes to an evaluator. The parser then builds a syntax tree,
-- whose overloaded calls are resolved by comparing implicit conversions between types.
--
-- Files and the code that they model (paths below glsld-core/):
--   Source            include/Basic/SourceInfo.h: TextPosition, TextRange
--   Token             include/Compiler/SyntaxToken.h: TokenKlass, PPToken
--   Token/Scanner     include/Compiler/PPTokenScanner.h: the cursor, as the list of what is left
--   Atoms             include/Basic/AtomTable.h, src/Basic/AtomTable.cpp: interned texts; the other files
--                     have texts in place of atoms
--   Literal           src/Language/ConstValue.cpp: ParseNumberLiteral on integers
--   PpEval            include/Compiler/PPEval.h, src/Compiler/PPEval.cpp: PPExprEvaluator;
--                     PpEval/Arith has the single operators, PpEval/Grammar an independent grammar
--                     of the expressions and their meaning
--   MacroTable        include/Compiler/MacroTable.h, src/Compiler/MacroTable.cpp
--   Conditional       src/Compiler/Preprocessor.cpp, HandleIfDirective to HandleEndifDirective
--   Preprocess        include/Compiler/Preprocessor.h, src/Compiler/Preprocessor.cpp: the machine;
--                     Preprocess/Defs has its state and the handlers, Preprocess/Steps the
--                     transitions, FeedPPToken and the loop of PreprocessSourceFile
--   Version           src/Compiler/Preprocessor.cpp, HandleVersionDirective, and
--                     include/Language/ShaderTarget.h; Version/Reading has its theorems
--   Typing            include/Language/Typing.h, src/Language/Typing.cpp: scalar conversions
--   GlslType          include/Ast/Type.h, src/Ast/Type.cpp: descriptors, canonical names, conversion
--   Symbols           include/Compiler/SymbolTable.h, src/Compiler/SymbolTable.cpp: the levels of scope;
--                     Symbols/Scoping is about what a declaration makes visible, Symbols/Leaving
--                     about scopes that are left
--   Overload          src/Compiler/SymbolTable.cpp, FindFunction; Overload/Viable says what is
--                     chosen, Overload/Defined that there is a result, Overload/Comparison and
--                     Overload/Unique when the choice is unique
--   Tokenizer         include/Compiler/Tokenizer.h, src/Compiler/Tokenizer.cpp: Tokenizer/Cursor has
--                     the cursor and the characters, Tokenizer/Parts the loops, Tokenizer/Lex `Lex`
--                     and the loop over a file; Tokenizer/Progress, Behind and Total have the
--                     theorems on progress, Tokenizer/Words and RoundTrip those on text read back
--   Expansion         src/Compiler/Preprocessor.cpp and include/Compiler/Preprocessor.h,
--                     MacroExpansionProcessor: Expansion/State has its fields, Expansion/Body
--                     FeedMacroExpansion over a body, with Tokenizer for pasted text, Expansion/Feed
--                     `Feed` and what it calls; Outcome, Disabled, Sound, Fed, Bodies and Total are
--                     about its termination and failures, Reference and ObjectLike about what it
--                     puts out for object-like macros
--   Parser            include/Compiler/Parser.h, src/Compiler/Parser.cpp: Parser/Tokens has the state of
--                     the parser and its tokens, Parser/Recovery RecoverFromError and the helpers for
--                     delimiters, Parser/Syntax the calls of the AST builder, Parser/Operators the
--                     tables of operators, Parser/Exprs, Parser/Postfix, Parser/Types and
--                     Parser/Qualifiers the functions for expressions and the types in them, which
--                     call each other through Parser/Calls, and Parser/Run them with themselves for
--                     these calls. Parser/Total is about termination: Ready has what holds between
--                     two calls, Landing where recovery stops, Fine what the functions promise each
--                     other, the others that they keep it; Parser/Growth is about more fuel, with which
--                     results stay. Parser/Grouping is about the order of operators: Operand has what is
--                     parsed of a name, Links and Chain the loops over operators, Unique that one tree
--                     obeys the order, Whole ParseExpr. Parser/Hang has an input without end
--   Prelude           shared names, Boolean tests, lists and integers
--
-- Conventions. Names are the source's in lower case with underscores (`HandleElifDirective` is
-- `handle_elif_directive`). Numbers are natural numbers; 64-bit words keep their wrap-around written
-- out. Texts are lists of bytes, and atoms are compared by their texts. A vector used as a stack is a
-- list whose head is its back. A hash map is an association list. A failed assertion is `none` (within
-- one call of `Lex` it is noted in the field `failed` of `Scan`, and `Lex` is `none` then), and
-- an operation that C++ leaves undefined is the outcome `undefined`. The tokenizer's cursor is what is
-- left of the source, at whose end a null character is read; the set of disabled macros is a list of
-- names, and a processor that collects arguments holds the processor of the current argument.
--
-- Fuel. `decimal_onto` prints a number with one more step than the number itself, and every step
-- divides by ten. The loops of the tokenizer take as many steps as bytes are left, and each takes a
-- byte. `tokenize` is given its fuel, of which more than there are bytes is enough. `expand_tokens`
-- gives expansions the size of the macro table as the depth to which they nest; every expansion
-- disables one macro more. The functions of the parser take fuel for how deep their calls and the turns
-- of their loops are nested: four for each token and three more are enough where no struct is defined,
-- and with one there may be no such number. `recover_loop` takes as many steps as tokens are left. No
-- other definition needs fuel.
--
-- Not modelled, and taken as parameters (the record `Services` of Preprocess/Defs): the output stream,
-- the inclusion of a file, and the truth value that an expression with an undefined operation happens
-- to have. The machine takes macro expansion as a parameter too, and Expansion models it apart, for a
-- macro table that no directive changes while the arguments of a call are read. Callbacks and
-- diagnostics only report and are left out, and so are the directives that do nothing else
-- (`#error`, `#extension`, `#pragma`, `#line`) and the version scanning mode. `#version` changes no
-- state of the machine, which passes over it; Version models its handler apart, with the assertion
-- that can fail there. Of the parser the statements and declarations are not modelled, nor what the AST
-- builder computes for a node: a call of the builder is the node that it returns. The builder's own
-- assertions and aborts (AstBuilder.cpp, lines 366, 583, 631 and 649 among them) and the assertion of the
-- constructor of `AstSyntaxRange` are left out with it, so what is said of the parser holds where these
-- calls return. `IsStructName` of the builder is a parameter. The server is not modelled.
pub mod Atoms
pub mod Conditional
pub mod Expansion
pub mod GlslType
pub mod Literal
pub mod MacroTable
pub mod Overload
pub mod Parser
pub mod PpEval
pub mod Prelude
pub mod Preprocess
pub mod Source
pub mod Symbols
pub mod Token
pub mod Tokenizer
pub mod Typing
pub mod Version
